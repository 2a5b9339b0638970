-- ===== src/Json/Status.antt =====
-- The readers of status lists in src/common/json_utils/JsonUtils.cpp. The catch-all of the parse makes
-- every exception of it a std::nullopt.
use mavlink_hub.Base.{
  String, Bool, true, false, not, ◌||◌, Option, none, some, List, [], ◌∷◌, if◌then◌else◌,
}
use mavlink_hub.Base.Dict.{Dict}
use mavlink_hub.Json.Api.{JsonApi}
use mavlink_hub.Json.Encode.{agent_state_to_string, endpoint_state_to_string}

module _ (J : JsonApi) where
  -- The guard of both loops' bodies.
  abbrev pub is_status_entry : J.Json → Bool
  is_status_entry e = not (
      not (J.is_object e)
      || not (J.contains e "name")
      || not (J.is_string (J.at e "name"))
      || not (J.contains e "status")
      || not (J.is_number (J.at e "status")))

  -- The loop of `agentStatusListFromJsonString`: the pairs, or nothing at the first bad entry.
  unfoldable pub read_agent_statuses : List J.Json → Option (Dict String)
  read_agent_statuses [] = some []
  read_agent_statuses (e ∷ es) = elim (is_status_entry e) [
    | false ↦ none
    | true ↦ elim (read_agent_statuses es) [
      | none ↦ none
      | some rest ↦ some (
          (J.as_string (J.at e "name"), agent_state_to_string (J.as_agent_state (J.at e "status")))
          ∷ rest)
    ]
  ]

  unfoldable pub read_endpoint_statuses : List J.Json → Option (Dict String)
  read_endpoint_statuses [] = some []
  read_endpoint_statuses (e ∷ es) = elim (is_status_entry e) [
    | false ↦ none
    | true ↦ elim (read_endpoint_statuses es) [
      | none ↦ none
      | some rest ↦ some (
          (
            J.as_string (J.at e "name"),
            endpoint_state_to_string (J.as_endpoint_state (J.at e "status")),
          )
          ∷ rest)
    ]
  ]

  -- What is done with the parsed document: `key` must hold an array.
  unfoldable pub read_status_list :
      String → (List J.Json → Option (Dict String)) → J.Json → Option (Dict String)
  read_status_list key read j =
      if not (J.is_object j) || not (J.contains j key) || not (J.is_array (J.at j key))
      then none
      else read (J.array_range (J.at j key))

  unfoldable pub agent_status_list_from_json_string : String → Option (Dict String)
  unfolding read_status_list
  agent_status_list_from_json_string json_str = elim (J.parse json_str) [
    | none ↦ none
    | some j ↦ read_status_list "agent_status_list" read_agent_statuses j
  ]

  unfoldable pub endpoint_status_list_from_json_string : String → Option (Dict String)
  unfolding read_status_list
  endpoint_status_list_from_json_string json_str = elim (J.parse json_str) [
    | none ↦ none
    | some j ↦ read_status_list "endpoint_status_list" read_endpoint_statuses j
  ]
