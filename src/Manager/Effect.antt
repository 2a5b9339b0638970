-- ===== src/Manager/Effect.antt =====
-- What `executePlan` of src/manager/Manager.cpp does when it does not discard the plan.
use mavlink_hub.Base.{
  String, ◌≡◌, refl, ◌∙◌, Bool, true, false, ◌||◌, ◌&&◌, ◌==◌, eq_iff, eq_refl, ◌⊎◌, inl, inr, some,
  [], ◌∷◌, arith, Bool-cases,
}
use mavlink_hub.Base.Dict
use mavlink_hub.Base.Dict.{Dict, NodupKeys, lookup, lookup-insert}
use mavlink_hub.Common.{OperationResult}
use mavlink_hub.Sdk.{Sdk}
use mavlink_hub.Manager.Types.{MavlinkEndpointEntry, AgentEntry, UserPlanPolicy, discard}
use mavlink_hub.Manager.State.{Manager, Registries}
use mavlink_hub.Manager.Plan.{result_at, execute_endpoint, execute_agent}
use mavlink_hub.Manager.Execute.{is_discard, check_discard, execute_endpoints, execute_agents}
use mavlink_hub.Manager.Endpoints.{add_mavlink_endpoint}
use mavlink_hub.Manager.Frame.{has}
use mavlink_hub.Manager.Steps.{
  add_endpoint-has, connect_endpoint-has, add_agent-names, start_agent-names,
}

pub check_discard_kept {ℓ} :
    {V : Type ℓ} (policy : UserPlanPolicy) (results : Dict OperationResult) (plan : Dict V)
    (start : Bool)
    → is_discard policy ≡ false
    → check_discard policy results plan start ≡ start
unfolding check_discard
check_discard_kept policy results [] start h = refl
check_discard_kept policy results ((n, s) ∷ plan) start h =
    ground (arith, h, check_discard_kept policy results plan start h)

-- An entry of a plan whose validation failed.
abbrev pub FailedEntry {ℓ} : {V : Type ℓ} → Dict OperationResult → Dict V → Type ℓ
FailedEntry {V} results plan =
    (name : String) × (spec : V) × (lookup name plan ≡ some spec)
    × ((result_at name results).success ≡ false)

FailedEntry-head {ℓ} :
    {V : Type ℓ} (results : Dict OperationResult) (n : String) (s : V) (plan : Dict V)
    → (result_at n results).success ≡ false
    → FailedEntry results ((n, s) ∷ plan)
unfolding lookup
FailedEntry-head results n s plan bad = (n, s, rw (eq_refl n, lookup) refl, bad)

FailedEntry-tail {ℓ} :
    {V : Type ℓ} (results : Dict OperationResult) (n : String) (s : V) (plan : Dict V)
    → FailedEntry results plan
    → FailedEntry results ((n, s) ∷ plan)
unfolding lookup
FailedEntry-tail results n s plan (name, spec, e, bad) = elim (Bool-cases (n == name)) [
  | inl same_name ↦ (name, s, rw (same_name, lookup) refl, bad)
  | inr differ ↦ (name, spec, rw (differ, lookup) e, bad)
]

-- The flag is set only for a reason.
pub check_discard-reason {ℓ} :
    {V : Type ℓ} (results : Dict OperationResult) (plan : Dict V) (start : Bool)
    → check_discard discard results plan start ≡ true
    → (start ≡ true) ⊎ FailedEntry results plan
unfolding check_discard
check_discard-reason results [] start h = inl h
check_discard-reason results ((n, s) ∷ plan) start h =
    elim (Bool-cases (result_at n results).success) [
      | inr bad ↦ inr (FailedEntry-head results n s plan bad)
      | inl ok ↦ elim (check_discard-reason results plan start (ground arith)) [
        | inl set ↦ inl set
        | inr found ↦ inr (FailedEntry-tail results n s plan found)
      ]
    ]

module _ (S : Sdk) (reg : Registries S) where
  execute_endpoint-has :
      (validity : OperationResult) (n : String) (spec : MavlinkEndpointEntry) (k : String)
      (m : Manager S)
      → has k (execute_endpoint S reg false validity n spec m).0.endpoint_db
        ≡ (has k m.endpoint_db || validity.success && n == k)
  unfolding execute_endpoint
  execute_endpoint-has validity n spec k m = ground (
    arith,
    eq_iff n k,
    add_endpoint-has S reg n k m,
    connect_endpoint-has S n spec.type spec.config k (add_mavlink_endpoint S reg n m).0,
  )

  -- The endpoints after the loop: those that were there, and those of the plan that are valid.
  pub execute_endpoints-has :
      (validity : Dict OperationResult) (plan : Dict MavlinkEndpointEntry) (m : Manager S)
      (results : Dict OperationResult) (k : String)
      → has k (execute_endpoints S reg false validity plan m results).0.endpoint_db
        ≡ (has k m.endpoint_db || (result_at k validity).success && has k plan)
  unfolding execute_endpoints lookup
  execute_endpoints-has validity [] m results k = ground arith
  execute_endpoints-has validity ((n, s) ∷ plan) m results k =
      let ran = execute_endpoint S reg false (result_at n validity) n s m in
      execute_endpoints-has validity plan ran.0 (Dict.insert n ran.1 results) k
      ∙ ground (arith, eq_iff n k, execute_endpoint-has (result_at n validity) n s k m)

  execute_agent-names :
      (validity : OperationResult) (n : String) (spec : AgentEntry) (k : String) (m : Manager S)
      (d : Bool)
      → has k (execute_agent S reg d validity n spec m).0.endpoint_db ≡ has k m.endpoint_db
  unfolding execute_agent
  execute_agent-names validity n spec k m d = grind (arith, add_agent-names, start_agent-names)

  pub execute_agents-names :
      (validity : Dict OperationResult) (plan : Dict AgentEntry) (m : Manager S)
      (results : Dict OperationResult) (k : String) (d : Bool)
      → has k (execute_agents S reg d validity plan m results).0.endpoint_db ≡ has k m.endpoint_db
  unfolding execute_agents
  execute_agents-names validity [] m results k d = refl
  execute_agents-names validity ((n, s) ∷ plan) m results k d =
      execute_agents-names validity plan _ _ k d
      ∙ execute_agent-names (result_at n validity) n s k m d
