-- ===== src/Manager/Plan.antt =====
-- `validatePlan` and `executePlan` of src/manager/Manager.cpp. Each loop over a map of the plan is a
-- recursion on it, with the map of results that it fills as its last argument.
use mavlink_hub.Base.{
  String, ◌<>◌, Bool, true, false, not, ◌&&◌, none, some, [], ◌∷◌, if◌then◌else◌, is_some,
}
use mavlink_hub.Base.Dict
use mavlink_hub.Base.Dict.{Dict}
use mavlink_hub.Common.{OperationResult, fresh, merge, report_of}
use mavlink_hub.Sdk.{Sdk, accepted, rejected}
use mavlink_hub.Manager.Types.{MavlinkEndpointEntry, AgentEntry, UserPlan, ExecutionResultList}
use mavlink_hub.Manager.State.{Manager, Registries, Outcome}
use mavlink_hub.Manager.Endpoints.{add_mavlink_endpoint, connect_mavlink_endpoint}
use mavlink_hub.Manager.Agents.{add_agent, start_agent, definition_of}

-- `results[name]`: a missing entry reads as a fresh result.
unfoldable pub result_at : String → Dict OperationResult → OperationResult
result_at name results = elim (Dict.lookup name results) [ none ↦ fresh | some r ↦ r ]

-- `kind` is "a Mavlink Endpoint" or "an Agent".
unfoldable pub name_availability : String → String → Bool → OperationResult
name_availability kind name taken =
    if taken
    then report_of false
        ("[Manager]: The name [" <> name <> "] is NOT AVAILABLE to be used as " <> kind <> " name.")
    else report_of true
        ("[Manager]: The name [" <> name <> "] is AVAILABLE to be used as " <> kind <> " name.")

abbrev config_valid : String → String → OperationResult
config_valid kind type = report_of true (
    "[Manager]: The " <> kind <> " type [" <> type
    <> "] is registered and the given config is VALID.")

abbrev config_invalid : String → String → OperationResult
config_invalid kind type = report_of false (
    "Manager]: The " <> kind <> " type [" <> type
    <> "] is registered HOWEVER the given config is INVALID.")

abbrev type_unknown : String → String → OperationResult
type_unknown kind type =
    report_of false ("[Manager]: The " <> kind <> " type [" <> type <> "] is not registered.")

module _ (S : Sdk) (reg : Registries S) where
  unfoldable pub endpoint_config_validation : MavlinkEndpointEntry → OperationResult
  endpoint_config_validation spec = elim (S.transport_at reg.transport_registry spec.type) [
    | none ↦ type_unknown "endpoint" spec.type
    | some definition ↦ elim (S.parse_transport_config definition spec.config) [
      | accepted parsed messages ↦ config_valid "endpoint" spec.type
      | rejected messages ↦ config_invalid "endpoint" spec.type
    ]
  ]

  unfoldable pub agent_config_validation : AgentEntry → OperationResult
  agent_config_validation spec = elim (definition_of S reg spec.type) [
    | none ↦ type_unknown "agent" spec.type
    | some definition ↦ elim (S.parse_agent_config definition spec.config) [
      | accepted parsed messages ↦ config_valid "agent" spec.type
      | rejected messages ↦ config_invalid "agent" spec.type
    ]
  ]

  unfoldable pub validate_endpoint : Manager S → String → MavlinkEndpointEntry → OperationResult
  unfolding name_availability endpoint_config_validation
  validate_endpoint m ep_name ep_spec =
      merge
        (merge fresh (
          name_availability "a Mavlink Endpoint" ep_name
            (is_some (Dict.lookup ep_name m.endpoint_db))))
        (endpoint_config_validation ep_spec)

  unfoldable pub validate_agent : Manager S → String → AgentEntry → OperationResult
  unfolding name_availability agent_config_validation
  validate_agent m ag_name ag_spec =
      merge
        (merge fresh
          (name_availability "an Agent" ag_name (is_some (Dict.lookup ag_name m.agents))))
        (agent_config_validation ag_spec)

  unfoldable pub validate_endpoints :
      Manager S → Dict MavlinkEndpointEntry → Dict OperationResult → Dict OperationResult
  validate_endpoints m [] results = results
  validate_endpoints m ((ep_name, ep_spec) ∷ plan) results =
      validate_endpoints m plan (Dict.insert ep_name (validate_endpoint m ep_name ep_spec) results)

  unfoldable pub validate_agents :
      Manager S → Dict AgentEntry → Dict OperationResult → Dict OperationResult
  validate_agents m [] results = results
  validate_agents m ((ag_name, ag_spec) ∷ plan) results =
      validate_agents m plan (Dict.insert ag_name (validate_agent m ag_name ag_spec) results)

  unfoldable pub validate_plan : UserPlan → Manager S → ExecutionResultList
  validate_plan plan m = record {
    endpoint_plan_result = validate_endpoints m plan.endpoint_list [];
    agent_plan_result = validate_agents m plan.agent_list [];
  }

  unfoldable pub execute_endpoint :
      Bool → OperationResult → String → MavlinkEndpointEntry → Manager S → Outcome S
  execute_endpoint discard_plan validity ep_name ep_spec m =
      if not validity.success
      then (m, validity)
      else if discard_plan
      then (
        m,
        report_of false
            ("[Manager]: Endpoint [" <> ep_name <> "] is discarded because of the policy"),
      )
      else (let added = add_mavlink_endpoint S reg ep_name m in
          let connected = connect_mavlink_endpoint S ep_name ep_spec.type ep_spec.config added.0 in
          if added.1.success && ep_spec.connect_on_create
          then (connected.0, merge (merge fresh added.1) connected.1)
          else (added.0, merge fresh added.1))

  unfoldable pub execute_agent :
      Bool → OperationResult → String → AgentEntry → Manager S → Outcome S
  execute_agent discard_plan validity ag_name ag_spec m =
      if not validity.success
      then (m, validity)
      else if discard_plan
      then (
        m,
        merge fresh (
            report_of false (
              "[Manager]: Agent [" <> ag_name
              <> "] is valid but the plan is discarded because of the policy")),
      )
      else (let added = add_agent S reg ag_name ag_spec.type ag_spec.config m in
          let started = start_agent S ag_name added.0 in
          if added.1.success && ag_spec.start_on_create
          then (started.0, merge (merge fresh added.1) started.1)
          else (added.0, merge fresh added.1))
