-- ===== src/Manager/Execute.antt =====
-- The loops of `executePlan` of src/manager/Manager.cpp.
use mavlink_hub.Base.{Bool, true, false, not, ◌&&◌, [], ◌∷◌, if◌then◌else◌}
use mavlink_hub.Base.Dict
use mavlink_hub.Base.Dict.{Dict}
use mavlink_hub.Common.{OperationResult}
use mavlink_hub.Sdk.{Sdk}
use mavlink_hub.Manager.Types.{
  MavlinkEndpointEntry, AgentEntry, UserPlanPolicy, discard, best_effort, unnamed, UserPlan,
  ExecutionResultList,
}
use mavlink_hub.Manager.State.{Manager, Registries}
use mavlink_hub.Manager.Plan.{result_at, validate_plan, execute_endpoint, execute_agent}

-- `policy == UserPlanPolicy::DISCARD`
abbrev pub is_discard : UserPlanPolicy → Bool
is_discard discard = true
is_discard best_effort = false
is_discard (unnamed n) = false

-- A loop that sets `discard_plan` and breaks at the first invalid entry under DISCARD.
unfoldable pub check_discard {ℓ} :
    {V : Type ℓ} → UserPlanPolicy → Dict OperationResult → Dict V → Bool → Bool
check_discard policy results [] discard_plan = discard_plan
check_discard policy results ((name, spec) ∷ plan) discard_plan =
    let rest = check_discard policy results plan discard_plan in
    if is_discard policy && not (result_at name results).success then true else rest

module _ (S : Sdk) (reg : Registries S) where
  unfoldable pub execute_endpoints :
      Bool
      → Dict OperationResult
      → Dict MavlinkEndpointEntry
      → Manager S
      → Dict OperationResult
      → Manager S × Dict OperationResult
  execute_endpoints discard_plan validity [] m results = (m, results)
  execute_endpoints discard_plan validity ((ep_name, ep_spec) ∷ plan) m results =
      let ran =
        execute_endpoint S reg discard_plan (result_at ep_name validity) ep_name ep_spec m in
      execute_endpoints discard_plan validity plan ran.0 (Dict.insert ep_name ran.1 results)

  unfoldable pub execute_agents :
      Bool
      → Dict OperationResult
      → Dict AgentEntry
      → Manager S
      → Dict OperationResult
      → Manager S × Dict OperationResult
  execute_agents discard_plan validity [] m results = (m, results)
  execute_agents discard_plan validity ((ag_name, ag_spec) ∷ plan) m results =
      let ran = execute_agent S reg discard_plan (result_at ag_name validity) ag_name ag_spec m in
      execute_agents discard_plan validity plan ran.0 (Dict.insert ag_name ran.1 results)

  -- `discard_plan` after both checks.
  unfoldable pub discards : UserPlan → Manager S → Bool
  discards plan m =
      let validation = validate_plan S reg plan m in
      check_discard plan.policy validation.agent_plan_result plan.agent_list
        (check_discard plan.policy validation.endpoint_plan_result plan.endpoint_list false)

  unfoldable pub execute_plan : UserPlan → Manager S → Manager S × ExecutionResultList
  execute_plan plan m =
      let validation = validate_plan S reg plan m in
      let endpoints =
        execute_endpoints (discards plan m) validation.endpoint_plan_result plan.endpoint_list m
          [] in
      let agents =
        execute_agents (discards plan m) validation.agent_plan_result plan.agent_list endpoints.0
          [] in
      (agents.0, record { endpoint_plan_result = endpoints.1; agent_plan_result = agents.1 })
