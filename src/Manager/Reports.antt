-- ===== src/Manager/Reports.antt =====
-- The reports of `executePlan` in src/manager/Manager.cpp against what it left in the manager, and
-- the agents that it does not touch.
use mavlink_hub.Base.{
  String, ◌≡◌, refl, ap, ◌∙◌, Bool, true, false, ◌||◌, not, ◌&&◌, ◌==◌, eq_iff, ◌⊎◌, inl, inr,
  Option, none, some, [], ◌∷◌, arith, Bool-cases, Option-cases,
}
use mavlink_hub.Base.Dict
use mavlink_hub.Base.Dict.{Dict, NodupKeys, lookup, lookup-insert}
use mavlink_hub.Common.{OperationResult}
use mavlink_hub.Sdk.{Sdk}
use mavlink_hub.Manager.Types.{MavlinkEndpointEntry, AgentEntry, UserPlan}
use mavlink_hub.Manager.State.{Manager, Registries}
use mavlink_hub.Manager.Endpoints.{add_mavlink_endpoint, connect_mavlink_endpoint}
use mavlink_hub.Manager.Agents.{add_agent}
use mavlink_hub.Manager.Plan.{
  validate_agent, validate_plan, result_at, execute_endpoint, execute_agent,
}
use mavlink_hub.Manager.Execute.{execute_endpoints, execute_agents, discards, execute_plan}
use mavlink_hub.Manager.Frame.{has}
use mavlink_hub.Manager.Steps.{
  add_agent-lookup_ne, start_agent-lookup_ne, add_agent-success, add_agent-has, start_agent-has,
  add_endpoint-has, connect_endpoint-has,
}
use mavlink_hub.Manager.Effect.{execute_agents-names}
use mavlink_hub.Manager.Validity.{validate_agent_iff, validity_of_agent}

-- Whether a result, if there is one, is a failure or has its subject present.
abbrev pub backed : Bool → Option OperationResult → Bool
backed present none = true
backed present (some r) = not r.success || present

module _ (S : Sdk) (reg : Registries S) where
  execute_endpoint-agents :
      (d : Bool) (validity : OperationResult) (n : String) (spec : MavlinkEndpointEntry)
      (m : Manager S)
      → (execute_endpoint S reg d validity n spec m).0.agents ≡ m.agents
  unfolding execute_endpoint add_mavlink_endpoint connect_mavlink_endpoint
  execute_endpoint-agents d validity n spec m = ground arith

  execute_endpoints-agents :
      (d : Bool) (validity : Dict OperationResult) (plan : Dict MavlinkEndpointEntry)
      (m : Manager S) (results : Dict OperationResult)
      → (execute_endpoints S reg d validity plan m results).0.agents ≡ m.agents
  unfolding execute_endpoints
  execute_endpoints-agents d validity [] m results = refl
  execute_endpoints-agents d validity ((n, s) ∷ plan) m results =
      execute_endpoints-agents d validity plan _ _
      ∙ execute_endpoint-agents d (result_at n validity) n s m

  execute_agent-lookup :
      (d : Bool) (validity : OperationResult) (n : String) (spec : AgentEntry) (k : String)
      (m : Manager S)
      → (validity.success && n == k) ≡ false
      → lookup k (execute_agent S reg d validity n spec m).0.agents ≡ lookup k m.agents
  unfolding execute_agent
  execute_agent-lookup d validity n spec k m h = ground (
    arith,
    add_agent-lookup_ne S reg n spec.type spec.config k m,
    start_agent-lookup_ne S n k (add_agent S reg n spec.type spec.config m).0,
  )

  execute_agents-lookup :
      (d : Bool) (validity : Dict OperationResult) (plan : Dict AgentEntry) (m : Manager S)
      (results : Dict OperationResult) (k : String)
      → ((result_at k validity).success && has k plan) ≡ false
      → lookup k (execute_agents S reg d validity plan m results).0.agents ≡ lookup k m.agents
  unfolding execute_agents lookup
  execute_agents-lookup d validity [] m results k h = refl
  execute_agents-lookup d validity ((n, s) ∷ plan) m results k h =
      execute_agents-lookup d validity plan _ _ k (ground arith)
      ∙ execute_agent-lookup d (result_at n validity) n s k m (ground (arith, eq_iff n k))

  untouched :
      (plan : UserPlan) (m : Manager S) (k : String)
      → NodupKeys plan.agent_list
      → (has k m.agents ≡ true) ⊎ (lookup k plan.agent_list ≡ none)
      → ((result_at k (validate_plan S reg plan m).agent_plan_result).success
          && has k plan.agent_list)
        ≡ false
  untouched plan m k ua h = elim (Option-cases (lookup k plan.agent_list)) [
    | inl e ↦ ground arith
    | inr (spec, e) ↦ elim (Bool-cases (validate_agent S reg m k spec).success) [
      | inr bad ↦ ground (arith, validity_of_agent S reg m plan k spec ua e)
      | inl ok ↦ ground (arith, ((validate_agent_iff S reg m k spec).0 ok).0)
    ]
  ]

  -- An agent that the manager has, and one that the plan does not name, is left as it is by
  -- `executePlan`, under either policy. The names of the plan's agents are distinct.
  pub execute_plan-agents :
      (plan : UserPlan) (m : Manager S) (k : String)
      → NodupKeys plan.agent_list
      → (has k m.agents ≡ true) ⊎ (lookup k plan.agent_list ≡ none)
      → lookup k (execute_plan S reg plan m).0.agents ≡ lookup k m.agents
  unfolding execute_plan
  execute_plan-agents plan m k ua h =
      let validation = validate_plan S reg plan m in
      let d = discards S reg plan m in
      let es = execute_endpoints S reg d validation.endpoint_plan_result plan.endpoint_list m [] in
      execute_agents-lookup d validation.agent_plan_result plan.agent_list es.0 [] k
        (untouched plan m k ua h)
      ∙ ap (lookup k)
          (execute_endpoints-agents d validation.endpoint_plan_result plan.endpoint_list m [])

  execute_agent-has :
      (d : Bool) (validity : OperationResult) (n : String) (spec : AgentEntry) (k : String)
      (m : Manager S)
      → has k m.agents ≡ true
      → has k (execute_agent S reg d validity n spec m).0.agents ≡ true
  unfolding execute_agent
  execute_agent-has d validity n spec k m h = ground (
    arith,
    add_agent-has S reg n spec.type spec.config k m,
    start_agent-has S n k (add_agent S reg n spec.type spec.config m).0,
  )

  execute_agent-success :
      (d : Bool) (validity : OperationResult) (n : String) (spec : AgentEntry) (m : Manager S)
      → (execute_agent S reg d validity n spec m).1.success ≡ true
      → has n (execute_agent S reg d validity n spec m).0.agents ≡ true
  unfolding execute_agent
  execute_agent-success d validity n spec m h = ground (
    arith,
    add_agent-success S reg n spec.type spec.config m,
    start_agent-has S n n (add_agent S reg n spec.type spec.config m).0,
  )

  execute_agents-backed :
      (d : Bool) (validity : Dict OperationResult) (plan : Dict AgentEntry) (m : Manager S)
      (results : Dict OperationResult) (k : String)
      → backed (has k m.agents) (lookup k results) ≡ true
      → let ran = execute_agents S reg d validity plan m results in
        backed (has k ran.0.agents) (lookup k ran.1) ≡ true
  unfolding execute_agents
  execute_agents-backed d validity [] m results k h = h
  execute_agents-backed d validity ((n, s) ∷ plan) m results k h =
      let v = result_at n validity in
      let ran = execute_agent S reg d v n s m in
      execute_agents-backed d validity plan ran.0 (Dict.insert n ran.1 results) k (
        ground (
          arith,
          eq_iff n k,
          lookup-insert n k ran.1 results,
          execute_agent-has d v n s k m,
          execute_agent-success d v n s m,
        ))

  execute_endpoint-has :
      (d : Bool) (validity : OperationResult) (n : String) (spec : MavlinkEndpointEntry)
      (k : String) (m : Manager S)
      → has k m.endpoint_db ≡ true
      → has k (execute_endpoint S reg d validity n spec m).0.endpoint_db ≡ true
  unfolding execute_endpoint
  execute_endpoint-has d validity n spec k m h = ground (
    arith,
    add_endpoint-has S reg n k m,
    connect_endpoint-has S n spec.type spec.config k (add_mavlink_endpoint S reg n m).0,
  )

  execute_endpoint-success :
      (d : Bool) (validity : OperationResult) (n : String) (spec : MavlinkEndpointEntry)
      (m : Manager S)
      → (execute_endpoint S reg d validity n spec m).1.success ≡ true
      → has n (execute_endpoint S reg d validity n spec m).0.endpoint_db ≡ true
  unfolding execute_endpoint
  execute_endpoint-success d validity n spec m h = ground (
    arith,
    eq_iff n n,
    add_endpoint-has S reg n n m,
    connect_endpoint-has S n spec.type spec.config n (add_mavlink_endpoint S reg n m).0,
  )

  execute_endpoints-backed :
      (d : Bool) (validity : Dict OperationResult) (plan : Dict MavlinkEndpointEntry)
      (m : Manager S) (results : Dict OperationResult) (k : String)
      → backed (has k m.endpoint_db) (lookup k results) ≡ true
      → let ran = execute_endpoints S reg d validity plan m results in
        backed (has k ran.0.endpoint_db) (lookup k ran.1) ≡ true
  unfolding execute_endpoints
  execute_endpoints-backed d validity [] m results k h = h
  execute_endpoints-backed d validity ((n, s) ∷ plan) m results k h =
      let v = result_at n validity in
      let ran = execute_endpoint S reg d v n s m in
      execute_endpoints-backed d validity plan ran.0 (Dict.insert n ran.1 results) k (
        ground (
          arith,
          eq_iff n k,
          lookup-insert n k ran.1 results,
          execute_endpoint-has d v n s k m,
          execute_endpoint-success d v n s m,
        ))

  -- A success in the report of `executePlan`, for an endpoint or an agent and under either policy,
  -- means that the manager has an endpoint or agent of that name afterwards.
  pub execute_plan-backed :
      (plan : UserPlan) (m : Manager S) (k : String)
      → let done = execute_plan S reg plan m in
        (backed (has k done.0.endpoint_db) (lookup k done.1.endpoint_plan_result) ≡ true)
        × (backed (has k done.0.agents) (lookup k done.1.agent_plan_result) ≡ true)
  unfolding execute_plan lookup
  execute_plan-backed plan m k =
      let validation = validate_plan S reg plan m in
      let d = discards S reg plan m in
      let es = execute_endpoints S reg d validation.endpoint_plan_result plan.endpoint_list m [] in
      (
        rw (execute_agents-names S reg validation.agent_plan_result plan.agent_list es.0 [] k d) (
            execute_endpoints-backed d validation.endpoint_plan_result plan.endpoint_list m [] k
              refl),
        execute_agents-backed d validation.agent_plan_result plan.agent_list es.0 [] k refl,
      )
