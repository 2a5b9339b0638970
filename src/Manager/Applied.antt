-- ===== src/Manager/Applied.antt =====
-- When `executePlan` of src/manager/Manager.cpp goes ahead, and what the manager then holds.
use mavlink_hub.Base.{
  String, ◌≡◌, refl, ap, ◌∙◌, ◌↔◌, Bool, true, false, ◌||◌, ◌&&◌, ◌⊎◌, inl, inr, some, [], arith,
  Bool-cases, Option-cases,
}
use mavlink_hub.Base.Dict.{NodupKeys, lookup}
use mavlink_hub.Sdk.{Sdk}
use mavlink_hub.Manager.Types.{
  MavlinkEndpointEntry, UserPlanPolicy, discard, best_effort, unnamed, UserPlan,
}
use mavlink_hub.Manager.State.{Manager, Registries}
use mavlink_hub.Manager.Plan.{validate_plan, result_at}
use mavlink_hub.Manager.Execute.{
  is_discard, check_discard, execute_endpoints, discards, execute_plan,
}
use mavlink_hub.Manager.Frame.{has}
use mavlink_hub.Manager.Effect.{
  FailedEntry, check_discard_kept, check_discard-reason, execute_endpoints-has,
  execute_agents-names,
}
use mavlink_hub.Manager.Validity.{
  EndpointIsValid, validate_endpoint_iff, validate_agent_iff, validity_of_endpoint,
  validity_of_agent,
}
use mavlink_hub.Manager.Discard.{HasInvalid, discards_of_invalid}

or_iff : {a b : Bool} → ((a || b) ≡ true) ↔ ((a ≡ true) ⊎ (b ≡ true))
or_iff {a} {b} = ground arith

module _ (S : Sdk) (reg : Registries S) (plan : UserPlan) (m : Manager S)
    (ue : NodupKeys plan.endpoint_list) (ua : NodupKeys plan.agent_list) where
  failed_endpoint-HasInvalid :
      FailedEntry (validate_plan S reg plan m).endpoint_plan_result plan.endpoint_list
      → HasInvalid S reg plan m
  failed_endpoint-HasInvalid (name, spec, e, bad) = inl (
    name,
    spec,
    e,
    λ v. cc (
      bad,
      validity_of_endpoint S reg m plan name spec ue e,
      (validate_endpoint_iff S reg m name spec).1 v,
    ),
  )

  failed_agent-HasInvalid :
      FailedEntry (validate_plan S reg plan m).agent_plan_result plan.agent_list
      → HasInvalid S reg plan m
  failed_agent-HasInvalid (name, spec, e, bad) = inr (
    name,
    spec,
    e,
    λ v. cc (
      bad,
      validity_of_agent S reg m plan name spec ua e,
      (validate_agent_iff S reg m name spec).1 v,
    ),
  )

  -- The flag after both loops, for a policy that is spelled out.
  abbrev flag : UserPlanPolicy → Bool
  flag p =
      let validation = validate_plan S reg plan m in
      check_discard p validation.agent_plan_result plan.agent_list
        (check_discard p validation.endpoint_plan_result plan.endpoint_list false)

  flag-kept : (p : UserPlanPolicy) → is_discard p ≡ false → flag p ≡ false
  flag-kept p h =
      let validation = validate_plan S reg plan m in
      check_discard_kept p validation.agent_plan_result plan.agent_list _ h
      ∙ check_discard_kept p validation.endpoint_plan_result plan.endpoint_list false h

  flag-reason : (p : UserPlanPolicy) → flag p ≡ true → (p ≡ discard) × HasInvalid S reg plan m
  flag-reason discard d = (
    refl,
    elim (check_discard-reason _ plan.agent_list _ d) [
      | inr found ↦ failed_agent-HasInvalid found
      | inl set ↦ elim (check_discard-reason _ plan.endpoint_list false set) [
        | inl never ↦ cc
        | inr found ↦ failed_endpoint-HasInvalid found
      ]
    ],
  )
  flag-reason best_effort d = cc (d, flag-kept best_effort refl)
  flag-reason (unnamed n) d = cc (d, flag-kept (unnamed n) refl)

  -- A plan is discarded exactly when its policy is DISCARD and it has an invalid entry. The names of
  -- each list are distinct.
  pub discards_iff :
      (discards S reg plan m ≡ true) ↔ ((plan.policy ≡ discard) × HasInvalid S reg plan m)
  unfolding discards
  discards_iff =
      (λ d. flag-reason plan.policy d, λ h. discards_of_invalid S reg plan m h.0 ue ua h.1)

  -- The plan is one that `executePlan` carries out.
  abbrev pub Runs : Type 0
  Runs = (is_discard plan.policy ≡ false) ⊎ (¬ HasInvalid S reg plan m)

  runs-discards : Runs → discards S reg plan m ≡ false
  runs-discards r = elim (Bool-cases (discards S reg plan m)) [
    | inr e ↦ e
    | inl e ↦ elim r [
      | inl b ↦ cc (b, ap is_discard (discards_iff.0 e).0)
      | inr h ↦ absurd (h (discards_iff.0 e).1)
    ]
  ]

  planned_iff :
      (k : String)
      → (((result_at k (validate_plan S reg plan m).endpoint_plan_result).success
            && has k plan.endpoint_list)
          ≡ true)
        ↔ ((spec : MavlinkEndpointEntry) × (lookup k plan.endpoint_list ≡ some spec)
            × EndpointIsValid S reg m k spec)
  planned_iff k = elim (Option-cases (lookup k plan.endpoint_list)) [
    | inl e ↦ (λ h. ground arith, λ (spec, e', v). cc (e, e'))
    | inr (spec, e) ↦ (
      λ h. (
        spec,
        e,
        (validate_endpoint_iff S reg m k spec).0
            (ground (arith, validity_of_endpoint S reg m plan k spec ue e)),
      ),
      λ (spec', e', v). ground (
        arith,
        validity_of_endpoint S reg m plan k spec' ue e',
        (validate_endpoint_iff S reg m k spec').1 v,
      ),
    )
  ]

  names-execute_plan :
      (k : String)
      → Runs
      → has k (execute_plan S reg plan m).0.endpoint_db ≡ (
          has k m.endpoint_db
          || (result_at k (validate_plan S reg plan m).endpoint_plan_result).success
            && has k plan.endpoint_list)
  unfolding execute_plan
  names-execute_plan k r =
      let validation = validate_plan S reg plan m in
      let es =
        execute_endpoints S reg false validation.endpoint_plan_result plan.endpoint_list m [] in
      rw (runs-discards r) (
        execute_agents-names S reg validation.agent_plan_result plan.agent_list es.0 [] k false
        ∙ execute_endpoints-has S reg validation.endpoint_plan_result plan.endpoint_list m [] k)

  -- After a plan that is not discarded, the manager has exactly the endpoints that it had and the
  -- valid ones of the plan, whatever the agents do in between. The names of each list are distinct.
  pub execute_plan-endpoints :
      (k : String)
      → Runs
      → (has k (execute_plan S reg plan m).0.endpoint_db ≡ true) ↔ (
          (has k m.endpoint_db ≡ true)
          ⊎ ((spec : MavlinkEndpointEntry) × (lookup k plan.endpoint_list ≡ some spec)
              × EndpointIsValid S reg m k spec))
  execute_plan-endpoints k r = rw (names-execute_plan k r) (
    λ h. elim (or_iff.0 h) [ inl old ↦ inl old | inr planned ↦ inr ((planned_iff k).0 planned) ],
    λ h. or_iff.1 (elim h [ inl old ↦ inl old | inr new ↦ inr ((planned_iff k).1 new) ]),
  )
