-- ===== src/Json/Encode.antt =====
-- The writers of src/common/json_utils/JsonUtils.cpp.
use mavlink_hub.Base.{String, List, [], ◌∷◌}
use mavlink_hub.Base.Dict.{Dict}
use mavlink_hub.Common.{OperationResult}
use mavlink_hub.Sdk.{
  AgentState, EndpointState, idle, starting, active, stopping, disconnected, connecting, connected,
  disconnecting,
}
use mavlink_hub.Manager.Types.{ExecutionResultList}
use mavlink_hub.Json.Api.{JsonApi}

unfoldable pub agent_state_to_string : AgentState → String
agent_state_to_string active = "active"
agent_state_to_string idle = "idle"
agent_state_to_string starting = "starting"
agent_state_to_string stopping = "stopping"
agent_state_to_string (AgentState.other n) = "unknown agent state"

unfoldable pub endpoint_state_to_string : EndpointState → String
endpoint_state_to_string connected = "connected"
endpoint_state_to_string connecting = "connecting"
endpoint_state_to_string disconnected = "disconnected"
endpoint_state_to_string disconnecting = "disconnecting"
endpoint_state_to_string (EndpointState.other n) = "unknown endpoint state"

module _ (J : JsonApi) where
  -- `j[key].push_back(value)`
  abbrev pub push_into : J.Json → String → J.Json → J.Json
  push_into j key value = J.set j key (J.push_back (J.at j key) value)

  -- The loop over `result.messages`.
  unfoldable pub push_messages : List String → J.Json → J.Json
  push_messages [] entry_result = entry_result
  push_messages (msg ∷ messages) entry_result =
      push_messages messages (push_into entry_result "messages" (J.of_string msg))

  unfoldable pub result_to_json : String → OperationResult → J.Json
  unfolding push_messages
  result_to_json name result = push_messages result.messages (
      J.set
        (J.set (J.set J.empty_object "name" (J.of_string name)) "success"
          (J.of_bool result.success))
        "messages" J.empty_array)

  -- A loop over a map of results, into the array under `key`.
  unfoldable pub push_results : String → Dict OperationResult → J.Json → J.Json
  push_results key [] j = j
  push_results key ((name, result) ∷ results) j =
      push_results key results (push_into j key (result_to_json name result))

  unfoldable pub execution_result_list_to_json_string : ExecutionResultList → String
  unfolding push_results result_to_json
  execution_result_list_to_json_string list =
      let with_endpoints =
        push_results "endpoint_plan_result" list.endpoint_plan_result
          (J.set J.empty_object "endpoint_plan_result" J.empty_array) in
      J.as_string (
        push_results "agent_plan_result" list.agent_plan_result
          (J.set with_endpoints "agent_plan_result" J.empty_array))

  -- The loop of `vectorOfStringToJson`.
  unfoldable pub push_strings : List String → J.Json → J.Json
  push_strings [] j_vec = j_vec
  push_strings (str ∷ list) j_vec = push_strings list (J.push_back j_vec (J.of_string str))

  unfoldable pub vector_of_string_to_json : List String → J.Json
  unfolding push_strings
  vector_of_string_to_json list = push_strings list J.empty_array

  unfoldable pub agent_list_to_json_string : List String → String
  unfolding vector_of_string_to_json
  agent_list_to_json_string list =
      J.as_string (J.set J.empty_object "agent_list" (vector_of_string_to_json list))

  unfoldable pub endpoint_list_to_json_string : List String → String
  unfolding vector_of_string_to_json
  endpoint_list_to_json_string list =
      J.as_string (J.set J.empty_object "endpoint_list" (vector_of_string_to_json list))

  unfoldable pub agent_status_to_json_string : AgentState → String
  unfolding agent_state_to_string
  agent_status_to_json_string state =
      J.as_string (J.set J.empty_object "agent_status" (J.of_string (agent_state_to_string state)))

  unfoldable pub endpoint_status_to_json_string : EndpointState → String
  unfolding endpoint_state_to_string
  endpoint_status_to_json_string state =
      J.as_string
        (J.set J.empty_object "endpoint_status" (J.of_string (endpoint_state_to_string state)))

  abbrev pub status_entry : String → J.Json → J.Json
  status_entry name status = J.set (J.set J.empty_object "name" (J.of_string name)) "status" status

  -- The loop of `agentStatusListToJsonString`.
  unfoldable pub push_agent_statuses : Dict AgentState → J.Json → J.Json
  push_agent_statuses [] j_res = j_res
  push_agent_statuses ((name, status) ∷ list) j_res =
      push_agent_statuses list
        (push_into j_res "agent_status_list" (status_entry name (J.of_agent_state status)))

  -- The document whose text `agentStatusListToJsonString` returns.
  unfoldable pub agent_status_document : Dict AgentState → J.Json
  unfolding push_agent_statuses
  agent_status_document list =
      push_agent_statuses list (J.set J.empty_object "agent_status_list" J.empty_array)

  unfoldable pub agent_status_list_to_json_string : Dict AgentState → String
  agent_status_list_to_json_string list = J.as_string (agent_status_document list)

  -- The loop of `endpointStatusListToJsonString`.
  unfoldable pub push_endpoint_statuses : Dict EndpointState → J.Json → J.Json
  push_endpoint_statuses [] j_res = j_res
  push_endpoint_statuses ((name, status) ∷ list) j_res =
      push_endpoint_statuses list
        (push_into j_res "endpoint_status_list" (status_entry name (J.of_endpoint_state status)))

  -- The document whose text `endpointStatusListToJsonString` returns.
  unfoldable pub endpoint_status_document : Dict EndpointState → J.Json
  unfolding push_endpoint_statuses
  endpoint_status_document list =
      push_endpoint_statuses list (J.set J.empty_object "endpoint_status_list" J.empty_array)

  unfoldable pub endpoint_status_list_to_json_string : Dict EndpointState → String
  endpoint_status_list_to_json_string list = J.as_string (endpoint_status_document list)

  abbrev pub report_entry : String → String → J.Json
  report_entry name report =
      J.set (J.set J.empty_object "name" (J.of_string name)) "report" (J.of_string report)

  unfoldable pub agent_report_to_json_string : String → String → String
  agent_report_to_json_string name report =
      J.as_string (J.set J.empty_object "agent_report" (report_entry name report))

  -- The loop of `agentReportListToJsonString`.
  unfoldable pub push_reports : Dict String → J.Json → J.Json
  push_reports [] j_res = j_res
  push_reports ((name, report) ∷ list) j_res =
      push_reports list (push_into j_res "agent_report_list" (report_entry name report))

  unfoldable pub agent_report_list_to_json_string : Dict String → String
  unfolding push_reports
  agent_report_list_to_json_string list =
      J.as_string (push_reports list (J.set J.empty_object "agent_report_list" J.empty_array))
