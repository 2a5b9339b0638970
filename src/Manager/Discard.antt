-- ===== src/Manager/Discard.antt =====
-- The DISCARD policy of `executePlan` in src/manager/Manager.cpp: all or nothing.
use mavlink_hub.Base.{
  String, ◌≡◌, refl, ◌∙◌, Bool, true, false, eq_iff, ◌⊎◌, inl, inr, some, [], ◌∷◌, arith,
}
use mavlink_hub.Base.Dict
use mavlink_hub.Base.Dict.{Dict, NodupKeys, lookup, lookup-insert}
use mavlink_hub.Common.{OperationResult}
use mavlink_hub.Sdk.{Sdk}
use mavlink_hub.Manager.Types.{MavlinkEndpointEntry, AgentEntry, UserPlanPolicy, discard, UserPlan}
use mavlink_hub.Manager.State.{Manager, Registries}
use mavlink_hub.Manager.Plan.{validate_plan, result_at, execute_endpoint, execute_agent}
use mavlink_hub.Manager.Execute.{
  check_discard, execute_endpoints, execute_agents, discards, execute_plan,
}
use mavlink_hub.Manager.Validity.{
  EndpointIsValid, AgentIsValid, validate_endpoint_iff, validate_agent_iff, validity_of_endpoint,
  validity_of_agent,
}

-- Once set, `discard_plan` stays set.
check_discard-set {ℓ} :
    {V : Type ℓ} (policy : UserPlanPolicy) (results : Dict OperationResult) (plan : Dict V)
    → check_discard policy results plan true ≡ true
unfolding check_discard
check_discard-set policy results [] = refl
check_discard-set policy results ((n, s) ∷ plan) =
    ground (arith, check_discard-set policy results plan)

check_discard-found {ℓ} :
    {V : Type ℓ} (policy : UserPlanPolicy) (results : Dict OperationResult) (plan : Dict V)
    (name : String) (spec : V) (start : Bool)
    → policy ≡ discard
    → lookup name plan ≡ some spec
    → (result_at name results).success ≡ false
    → check_discard policy results plan start ≡ true
unfolding check_discard lookup
check_discard-found policy results [] name spec start p e h = cc
check_discard-found policy results ((n, s) ∷ plan) name spec start p e h =
    ground (arith, eq_iff n name, check_discard-found policy results plan name spec start)

-- A flag that nothing justifies is not set.
false_unless : {P : Type 0} (b : Bool) → (b ≡ true → P) → ¬ P → b ≡ false
false_unless true f h = absurd (h (f refl))
false_unless false f h = refl

-- Every result in the map is a failure.
abbrev pub AllFailed : Dict OperationResult → Type 0
AllFailed [] = Unit {0}
AllFailed ((name, r) ∷ results) = (r.success ≡ false) × AllFailed results

insert-AllFailed :
    (name : String) (r : OperationResult) (results : Dict OperationResult)
    → r.success ≡ false
    → AllFailed results
    → AllFailed (Dict.insert name r results)
unfolding Dict.insert
insert-AllFailed name r [] h a = (h, tt)
insert-AllFailed name r ((n, w) ∷ results) h a =
    ground (arith, insert-AllFailed name r results h a.1)

module _ (S : Sdk) (reg : Registries S) where
  execute_endpoint_discarded :
      (validity : OperationResult) (name : String) (spec : MavlinkEndpointEntry) (m : Manager S)
      → ((execute_endpoint S reg true validity name spec m).0 ≡ m)
        × ((execute_endpoint S reg true validity name spec m).1.success ≡ false)
  unfolding execute_endpoint
  execute_endpoint_discarded validity name spec m = ground arith

  execute_agent_discarded :
      (validity : OperationResult) (name : String) (spec : AgentEntry) (m : Manager S)
      → ((execute_agent S reg true validity name spec m).0 ≡ m)
        × ((execute_agent S reg true validity name spec m).1.success ≡ false)
  unfolding execute_agent
  execute_agent_discarded validity name spec m = ground arith

  execute_endpoints_discarded :
      (validity : Dict OperationResult) (plan : Dict MavlinkEndpointEntry) (m : Manager S)
      (results : Dict OperationResult)
      → AllFailed results
      → ((execute_endpoints S reg true validity plan m results).0 ≡ m)
        × AllFailed (execute_endpoints S reg true validity plan m results).1
  unfolding execute_endpoints
  execute_endpoints_discarded validity [] m results a = (refl, a)
  execute_endpoints_discarded validity ((n, s) ∷ plan) m results a =
      let step = execute_endpoint_discarded (result_at n validity) n s m in
      let rest =
        execute_endpoints_discarded validity plan _ _ (insert-AllFailed n _ results step.1 a) in
      (rest.0 ∙ step.0, rest.1)

  execute_agents_discarded :
      (validity : Dict OperationResult) (plan : Dict AgentEntry) (m : Manager S)
      (results : Dict OperationResult)
      → AllFailed results
      → ((execute_agents S reg true validity plan m results).0 ≡ m)
        × AllFailed (execute_agents S reg true validity plan m results).1
  unfolding execute_agents
  execute_agents_discarded validity [] m results a = (refl, a)
  execute_agents_discarded validity ((n, s) ∷ plan) m results a =
      let step = execute_agent_discarded (result_at n validity) n s m in
      let rest =
        execute_agents_discarded validity plan _ _ (insert-AllFailed n _ results step.1 a) in
      (rest.0 ∙ step.0, rest.1)

  execute_plan_discarded :
      (plan : UserPlan) (m : Manager S)
      → discards S reg plan m ≡ true
      → ((execute_plan S reg plan m).0 ≡ m)
        × AllFailed (execute_plan S reg plan m).1.endpoint_plan_result
        × AllFailed (execute_plan S reg plan m).1.agent_plan_result
  unfolding execute_plan
  execute_plan_discarded plan m d =
      let validation = validate_plan S reg plan m in
      let es =
        execute_endpoints_discarded validation.endpoint_plan_result plan.endpoint_list m [] tt in
      let as' = execute_agents_discarded validation.agent_plan_result plan.agent_list _ [] tt in
      rw d (as'.0 ∙ es.0, es.1, as'.1)

  -- An entry of the plan that is not valid.
  abbrev pub HasInvalid : UserPlan → Manager S → Type 0
  HasInvalid plan m =
      ((name : String) × (spec : MavlinkEndpointEntry) × (lookup name plan.endpoint_list
          ≡ some spec)
        × ¬ EndpointIsValid S reg m name spec)
      ⊎ ((name : String) × (spec : AgentEntry) × (lookup name plan.agent_list ≡ some spec)
          × ¬ AgentIsValid S reg m name spec)

  pub discards_of_invalid :
      (plan : UserPlan) (m : Manager S)
      → plan.policy ≡ discard
      → NodupKeys plan.endpoint_list
      → NodupKeys plan.agent_list
      → HasInvalid plan m
      → discards S reg plan m ≡ true
  unfolding discards
  discards_of_invalid plan m p ue ua (inl (name, spec, e, bad)) =
      rw
        (check_discard-found plan.policy (validate_plan S reg plan m).endpoint_plan_result
          plan.endpoint_list name spec false p e
          (rw (validity_of_endpoint S reg m plan name spec ue e)
            (false_unless _ (validate_endpoint_iff S reg m name spec).0 bad)))
        (check_discard-set plan.policy _ plan.agent_list)
  discards_of_invalid plan m p ue ua (inr (name, spec, e, bad)) =
      check_discard-found plan.policy _ plan.agent_list name spec _ p e (
        rw (validity_of_agent S reg m plan name spec ua e)
          (false_unless _ (validate_agent_iff S reg m name spec).0 bad))

  -- Under DISCARD a plan with an invalid entry, endpoint or agent, is not executed at all: the
  -- manager stays as it is, and every result is a failure. The names of each list are distinct.
  pub execute_plan_atomic :
      (plan : UserPlan) (m : Manager S)
      → plan.policy ≡ discard
      → NodupKeys plan.endpoint_list
      → NodupKeys plan.agent_list
      → HasInvalid plan m
      → ((execute_plan S reg plan m).0 ≡ m)
        × AllFailed (execute_plan S reg plan m).1.endpoint_plan_result
        × AllFailed (execute_plan S reg plan m).1.agent_plan_result
  execute_plan_atomic plan m p ue ua bad =
      execute_plan_discarded plan m (discards_of_invalid plan m p ue ua bad)
