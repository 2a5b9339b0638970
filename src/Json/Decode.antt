-- ===== src/Json/Decode.antt =====
-- The readers of user plans in src/common/json_utils/JsonUtils.cpp.
use mavlink_hub.Base.{
  String, ◌==◌, Bool, true, false, not, ◌||◌, ◌&&◌, Option, none, some, List, [], ◌∷◌,
  if◌then◌else◌,
}
use mavlink_hub.Base.Dict
use mavlink_hub.Base.Dict.{Dict}
use mavlink_hub.Manager.Types.{
  MavlinkEndpointEntry, AgentEntry, UserPlanPolicy, discard, best_effort, unnamed, UserPlan,
}
use mavlink_hub.Json.Api.{JsonApi, Decoded, thrown, nothing, just, ◌>>=◌}

-- What one array element is: malformed, or a named entry, unless reading it throws.
pub data Element (V : Type 0) : Type 0 where
  raised : Element V
  malformed : Element V
  entry : String → V → Element V

-- `policy == UserPlanPolicy::BEST_EFFORT`
abbrev pub is_best_effort : UserPlanPolicy → Bool
is_best_effort discard = false
is_best_effort best_effort = true
is_best_effort (unnamed n) = false

module _ (J : JsonApi) where
  -- The loop `config[key] = value.as_string()`.
  unfoldable pub read_config : Dict J.Json → Dict String → Dict String
  read_config [] config = config
  read_config ((key, value) ∷ entries) config =
      read_config entries (Dict.insert key (J.as_string value) config)

  -- The reads at the end of the loop body of `jsonToEndpointList`, after `as_bool`.
  unfoldable pub endpoint_of : J.Json → Option Bool → Element MavlinkEndpointEntry
  endpoint_of e none = raised
  endpoint_of e (some connect_on_create) = entry (J.as_string (J.at e "name")) (record {
    type = J.as_string (J.at e "type");
    config = read_config (J.object_range (J.at e "config")) [];
    connect_on_create = connect_on_create;
  })

  -- The loop body of `jsonToEndpointList`, up to the write into the list.
  unfoldable pub endpoint_element : J.Json → Element MavlinkEndpointEntry
  unfolding endpoint_of
  endpoint_element e =
      if not (J.contains e "name")
        || not (J.contains e "type")
        || not (J.contains e "config")
        || not (J.contains e "connect_on_create")
      then malformed
      else if not (J.is_object (J.at e "config"))
      then malformed
      else if not (J.is_bool (J.at e "connect_on_create"))
      then malformed
      else endpoint_of e (J.as_bool (J.at e "connect_on_create"))

  unfoldable pub agent_of : J.Json → Option Bool → Element AgentEntry
  agent_of e none = raised
  agent_of e (some start_on_create) = entry (J.as_string (J.at e "name")) (record {
    type = J.as_string (J.at e "type");
    config = read_config (J.object_range (J.at e "config")) [];
    start_on_create = start_on_create;
  })

  -- The loop body of `jsonToAgentList`, up to the write into the list.
  unfoldable pub agent_element : J.Json → Element AgentEntry
  unfolding agent_of
  agent_element e =
      if not (J.contains e "name") || not (J.contains e "type") || not (J.contains e "config")
      then malformed
      else if not (J.is_object (J.at e "config"))
      then malformed
      else if J.contains e "start_on_create" && not (J.is_bool (J.at e "start_on_create"))
      then malformed
      else agent_of e (
          if J.contains e "start_on_create"
          then J.as_bool (J.at e "start_on_create")
          else some false)

  -- The loop of both readers: a malformed element is skipped or ends the loop.
  unfoldable pub read_elements :
      {V : Type 0} → (J.Json → Element V) → UserPlanPolicy → List J.Json → Dict V → Decoded (Dict V)
  read_elements read policy [] list = just list
  read_elements read policy (e ∷ es) list = elim (read e) [
    | raised ↦ thrown
    | malformed ↦ elim (is_best_effort policy) [
      | true ↦ read_elements read policy es list
      | false ↦ nothing
    ]
    | entry name v ↦ read_elements read policy es (Dict.insert name v list)
  ]

  unfoldable pub json_to_endpoint_list :
      J.Json → UserPlanPolicy → Decoded (Dict MavlinkEndpointEntry)
  json_to_endpoint_list j policy =
      if not (J.is_array j)
      then nothing
      else read_elements endpoint_element policy (J.array_range j) []

  unfoldable pub json_to_agent_list : J.Json → UserPlanPolicy → Decoded (Dict AgentEntry)
  json_to_agent_list j policy =
      if not (J.is_array j)
      then nothing
      else read_elements agent_element policy (J.array_range j) []

  -- The policy; `uninit` is what the field of a fresh `UserPlan` happens to hold.
  unfoldable pub read_policy : UserPlanPolicy → J.Json → Decoded UserPlanPolicy
  read_policy uninit plan_json =
      if not (J.contains plan_json "policy")
      then just uninit
      else if J.as_string (J.at plan_json "policy") == "discard"
      then just discard
      else if J.as_string (J.at plan_json "policy") == "best_effort"
      then just best_effort
      else nothing

  -- `if (!list.has_value())`: fail under DISCARD, otherwise an empty list.
  unfoldable pub or_empty : {V : Type 0} → UserPlanPolicy → Decoded (Dict V) → Decoded (Dict V)
  or_empty policy thrown = thrown
  or_empty discard nothing = nothing
  or_empty best_effort nothing = just []
  or_empty (unnamed n) nothing = just []
  or_empty policy (just list) = just list

  unfoldable pub read_endpoints : J.Json → UserPlanPolicy → Decoded (Dict MavlinkEndpointEntry)
  unfolding or_empty
  read_endpoints plan_json policy =
      if J.contains plan_json "endpoint_list"
      then or_empty policy (json_to_endpoint_list (J.at plan_json "endpoint_list") policy)
      else just []

  unfoldable pub read_agents : J.Json → UserPlanPolicy → Decoded (Dict AgentEntry)
  unfolding or_empty
  read_agents plan_json policy =
      if J.contains plan_json "agent_list"
      then or_empty policy (json_to_agent_list (J.at plan_json "agent_list") policy)
      else just []

  unfoldable pub json_to_user_plan : UserPlanPolicy → J.Json → Decoded UserPlan
  json_to_user_plan uninit plan_json = do
    policy ← read_policy uninit plan_json
    endpoint_list ← read_endpoints plan_json policy
    agent_list ← read_agents plan_json policy
    just (record { endpoint_list = endpoint_list; agent_list = agent_list; policy = policy })

  -- `stringToUserPlan`, and `fstreamToUserPlan` on the text of the stream.
  unfoldable pub string_to_user_plan : UserPlanPolicy → String → Decoded UserPlan
  string_to_user_plan uninit text = elim (J.parse text) [
    | none ↦ nothing
    | some plan_json ↦ json_to_user_plan uninit plan_json
  ]
