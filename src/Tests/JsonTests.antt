-- ===== src/Tests/JsonTests.antt =====
-- src/common/json_utils: the theorems at concrete inputs.
use mavlink_hub.Base.{String, ◌≡◌, refl, ◌&&◌, some, [], ◌∷◌, if◌then◌else◌}
use mavlink_hub.Base.Dict
use mavlink_hub.Base.Dict.{Dict, lookup}
use mavlink_hub.Sdk.{AgentState, EndpointState, idle, active, disconnected, connected}
use mavlink_hub.Manager.Types.{UserPlan, UserPlanPolicy, discard, best_effort, unnamed}
use mavlink_hub.Json.Api.{JsonApi, Decoded, nothing, just}
use mavlink_hub.Json.Decode.{
  agent_element, json_to_endpoint_list, json_to_agent_list, json_to_user_plan, read_policy,
  read_endpoints, read_agents, read_elements, read_config, or_empty,
}
use mavlink_hub.Json.Encode.{
  agent_state_to_string, agent_status_document, agent_status_list_to_json_string,
}
use mavlink_hub.Json.Status.{agent_status_list_from_json_string}
use mavlink_hub.Json.Config.{json_to_lib_list}
use mavlink_hub.Json.LibLaws.{all_complete, no_repeats, lib_entries, json_to_lib_list_lem}
use mavlink_hub.Json.PlanLaws.{store}
use mavlink_hub.Json.RoundTrip.{texts, agent_status_list_round_trip}
use mavlink_hub.Tests.Fixtures.{demo_agent}
use mavlink_hub.Tests.Documents.{
  demo_json, demo_json-IsLawful, plan_document, unset_document, Document, empty, field, text, snoc,
  nil,
}

abbrev agent_statuses : Dict AgentState
agent_statuses = ("log", active) ∷ ("camera", idle) ∷ []

abbrev endpoint_statuses : Dict EndpointState
endpoint_statuses = ("radio", connected) ∷ ("serial", disconnected) ∷ []

agent_status_list_round_trip_example :
    let J = demo_json (λ s. agent_status_document (demo_json (λ s. empty)) agent_statuses) in
    agent_status_list_from_json_string J (agent_status_list_to_json_string J agent_statuses)
    ≡ some (texts agent_state_to_string agent_statuses)
unfolding agent_status_document
agent_status_list_round_trip_example =
    agent_status_list_round_trip
      (demo_json (λ s. agent_status_document (demo_json (λ s. empty)) agent_statuses))
      (demo_json-IsLawful _) agent_statuses refl

abbrev pub read_plan : UserPlan
read_plan = record {
  endpoint_list = [];
  agent_list = ("log", demo_agent "camera") ∷ [];
  policy = discard;
}

pub decoded :
    json_to_user_plan (demo_json (λ s. plan_document)) best_effort plan_document ≡ just read_plan
unfolding json_to_user_plan read_policy read_endpoints read_agents json_to_endpoint_list
    json_to_agent_list or_empty agent_element read_elements Dict.insert read_config
decoded = refl

-- What the policy of a fresh plan happens to hold decides how a document without one is read.
abbrev read_unset : UserPlanPolicy → Decoded UserPlan
read_unset uninit = json_to_user_plan (demo_json (λ s. unset_document)) uninit unset_document

unset_discard : read_unset discard ≡ nothing
unfolding json_to_user_plan read_policy read_endpoints json_to_endpoint_list or_empty
unset_discard = refl

unset_best_effort :
    read_unset best_effort
    ≡ just (record { endpoint_list = []; agent_list = []; policy = best_effort })
unfolding json_to_user_plan read_policy read_endpoints json_to_endpoint_list or_empty read_agents
unset_best_effort = refl

unset_unnamed :
    read_unset (unnamed 7)
    ≡ just (record { endpoint_list = []; agent_list = []; policy = unnamed 7 })
unfolding json_to_user_plan read_policy read_endpoints json_to_endpoint_list or_empty read_agents
unset_unnamed = refl

abbrev pub J : JsonApi
J = demo_json (λ s. plan_document)

-- Two libraries, the second under the name of the first.
abbrev pub lib_document : String → Document
lib_document path =
    field (field (field empty "name" (text "camera")) "path" (text path)) "sym" (text "get")

abbrev libs_document : Document
libs_document = snoc (snoc nil (lib_document "a.so")) (lib_document "b.so")

json_to_lib_list_lem_example : json_to_lib_list J libs_document ≡ (
    if J.is_array libs_document
      && (all_complete J (J.array_range libs_document)
          && no_repeats (lib_entries J (J.array_range libs_document)))
    then just (store (lib_entries J (J.array_range libs_document)) [])
    else nothing)
json_to_lib_list_lem_example = json_to_lib_list_lem J libs_document
