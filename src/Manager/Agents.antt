-- ===== src/Manager/Agents.antt =====
-- The agent operations of src/manager/Manager.cpp. An agent's own code runs as a script.
use mavlink_hub.Base.{
  String, ◌<>◌, Bool, true, false, Option, none, some, List, [], ◌∷◌, ◌++◌, if◌then◌else◌,
}
use mavlink_hub.Base.Dict
use mavlink_hub.Base.Dict.{Dict}
use mavlink_hub.Common.{OperationResult, report_of}
use mavlink_hub.Sdk.{Sdk, AgentState, idle, starting, active, stopping, other, accepted, rejected}
use mavlink_hub.Registry.User
use mavlink_hub.Manager.State.{Manager, Registries, Outcome}
use mavlink_hub.Manager.Requests.{perform}

-- `state == AgentState::IDLE`
abbrev pub is_idle : AgentState → Bool
is_idle idle = true
is_idle _ = false

abbrev pub is_starting : AgentState → Bool
is_starting starting = true
is_starting _ = false

-- The switch of `removeAgent`.
unfoldable pub state_text : AgentState → String
state_text idle = "IDLE"
state_text starting = "STARTING"
state_text active = "ACTIVE"
state_text stopping = "STOPPING"
state_text (other n) = ""

module _ (S : Sdk) where
  abbrev pub set_agent : String → S.Agent → Manager S → Manager S
  set_agent name agent m = record m { agents = Dict.insert name agent m.agents }

  -- The definition that the manager's view shows under a type; `isRegistered` holds if there is one.
  abbrev pub definition_of : Registries S → String → Option S.AgentDefinition
  definition_of reg type = User.at reg.agent_registry reg.memory type

  unfoldable pub validate_agent_config : Registries S → String → Dict String → OperationResult
  validate_agent_config reg type config = elim (definition_of reg type) [
    | none ↦ report_of false (
        "[Manager] : Failed to validate an agent config with type: " <> type
        <> ". The type is not registered.")
    | some definition ↦ elim (S.parse_agent_config definition config) [
      | accepted parsed messages ↦ record {
        success = true;
        messages = messages ++ "[Manager] : The given agent config is valid." ∷ [];
      }
      | rejected messages ↦ record {
        success = false;
        messages =
            messages
            ++ ("[Manager] : Failed to validate the given agent config with type: " <> type) ∷ [];
      }
    ]
  ]

  abbrev add_failed : String → List String → OperationResult
  add_failed name messages = record {
    success = false;
    messages =
        messages
        ++ ("[Manager] : Failed to add Agent [" <> name <> "]. Please check the config.") ∷ [];
  }

  -- The end of `addAgent`, after `create` has returned a pointer or null.
  unfoldable pub keep_agent : String → List String → Manager S × Option S.Agent → Outcome S
  keep_agent name messages created = elim created.1 [
    | none ↦ (created.0, add_failed name messages)
    | some agent ↦ (
      set_agent name agent created.0,
      record {
        success = true;
        messages = messages ++ ("[Manager] : Agent [" <> name <> "] is added.") ∷ [];
      },
    )
  ]

  unfoldable pub add_agent : Registries S → String → String → Dict String → Manager S → Outcome S
  unfolding keep_agent
  add_agent reg name type config m = elim (Dict.lookup name m.agents) [
    | some agent ↦ (
      m,
      report_of false ("[Manager] : Failed to add Agent [" <> name <> "]. It already exists."),
    )
    | none ↦ elim (definition_of reg type) [
      | none ↦ (
        m,
        report_of false
            ("[Manager] : Failed to add agent [" <> name <> "]. The type is not registered."),
      )
      | some definition ↦ elim (S.parse_agent_config definition config) [
        | rejected messages ↦ (m, add_failed name messages)
        | accepted parsed messages ↦
            keep_agent name messages (perform S name (S.create definition parsed name) m)
      ]
    ]
  ]

  abbrev edit_failed : String → List String → OperationResult
  edit_failed name messages = record {
    success = false;
    messages =
        messages
        ++ ("[Manager] : Failed to edit Agent [" <> name <> "] config. Please check the config.")
          ∷ [];
  }

  -- The end of `editAgent`, after `configure` has returned.
  unfoldable pub keep_configured : String → List String → Manager S × (S.Agent × Bool) → Outcome S
  keep_configured name messages configured = (
    set_agent name configured.1.0 configured.0,
    if configured.1.1
        then record {
          success = true;
          messages = messages ++ ("[Manager] : Agent [" <> name <> "] config is modified.") ∷ [];
        }
        else edit_failed name messages,
  )

  unfoldable pub edit_agent : Registries S → String → String → Dict String → Manager S → Outcome S
  unfolding keep_configured
  edit_agent reg name type config m = elim (Dict.lookup name m.agents) [
    | none ↦ (
      m,
      report_of false ("[Manager] : Failed to edit Agent [" <> name <> "]. It does not exist."),
    )
    | some agent ↦ elim (definition_of reg type) [
      | none ↦ (
        m,
        report_of false
            ("[Manager] : Failed to edit agent [" <> name <> "]. The type is not registered."),
      )
      | some definition ↦ elim (S.parse_agent_config definition config) [
        | rejected messages ↦ (m, edit_failed name messages)
        | accepted parsed messages ↦
            keep_configured name messages (perform S name (S.configure agent parsed) m)
      ]
    ]
  ]

  -- The report of `startAgent`, after `start` has returned.
  unfoldable pub start_report : String → S.Agent × Bool → OperationResult
  start_report name (agent, true) =
      report_of true ("[Manager] : Agent [" <> name <> "] is started.")
  start_report name (agent, false) = report_of false (
      "[Manager] : Failed to start Agent ["
      <> name
      <> "]."
      <> (if is_idle (S.agent_state agent) then "Unknown reason." else " Agent state is not IDLE."))

  unfoldable pub start_agent : String → Manager S → Outcome S
  unfolding start_report
  start_agent name m = elim (Dict.lookup name m.agents) [
    | none ↦ (
      m,
      report_of false ("[Manager] : Failed to start Agent [" <> name <> "]. It does not exist."),
    )
    | some agent ↦
        let ran = perform S name (S.start agent) m in
        (set_agent name ran.1.0 ran.0, start_report name ran.1)
  ]

  -- The report of `stopAgent`, after `stop` has returned.
  unfoldable pub stop_report : String → S.Agent × Bool → OperationResult
  stop_report name (agent, true) = report_of true ("[Manager] : Agent [" <> name <> "] is stopped.")
  stop_report name (agent, false) = report_of false (
      "[Manager] : Failed to stop Agent ["
      <> name
      <> "]."
      <> (if is_starting (S.agent_state agent) then " Agent is STARTING." else "Unknown reason."))

  unfoldable pub stop_agent : String → Manager S → Outcome S
  unfolding stop_report
  stop_agent name m = elim (Dict.lookup name m.agents) [
    | none ↦ (
      m,
      report_of false ("[Manager] : Failed to stop Agent [" <> name <> "]. It does not exist."),
    )
    | some agent ↦
        let ran = perform S name (S.stop agent) m in
        (set_agent name ran.1.0 ran.0, stop_report name ran.1)
  ]

  -- The erased agent's destructor runs with the agent gone from the map.
  unfoldable pub remove_agent : String → Manager S → Outcome S
  unfolding state_text
  remove_agent name m = elim (Dict.lookup name m.agents) [
    | none ↦ (
      m,
      report_of false ("[Manager] : Failed to remove Agent [" <> name <> "]. It does not exist."),
    )
    | some agent ↦
        let erased : Manager S = record m { agents = Dict.erase name m.agents } in
        (
          (perform S name (S.destroy agent) erased).0,
          report_of true (
              "[Manager] : Agent ["
              <> name
              <> "] is stopped. Its last state is: ["
              <> state_text (S.agent_state agent)
              <> "]"),
        )
  ]
