-- ===== src/Manager/Queries.antt =====
-- The queries of src/manager/Manager.cpp: names, states and reports.
use mavlink_hub.Base.{String, Option, none, some, List, [], ◌∷◌}
use mavlink_hub.Base.Dict
use mavlink_hub.Base.Dict.{Dict}
use mavlink_hub.Sdk.{Sdk, AgentState, EndpointState}
use mavlink_hub.Manager.State.{Manager, EndpointEntry}

module _ (S : Sdk) where
  -- `Manager::getMavlinkEndpointList`
  unfoldable pub get_mavlink_endpoint_list : Manager S → List String
  get_mavlink_endpoint_list m = Dict.keys m.endpoint_db

  unfoldable pub get_mavlink_endpoint_state : String → Manager S → Option EndpointState
  get_mavlink_endpoint_state name m = elim (Dict.lookup name m.endpoint_db) [
    | none ↦ none
    | some entry ↦ some (S.endpoint_state entry.endpoint)
  ]

  -- The loop of `getMavlinkEndpointStateAll` over the entries, onto `states`.
  unfoldable pub collect_endpoint_states :
      Dict (EndpointEntry S) → Dict EndpointState → Dict EndpointState
  collect_endpoint_states [] states = states
  collect_endpoint_states ((name, entry) ∷ db) states =
      collect_endpoint_states db (Dict.insert name (S.endpoint_state entry.endpoint) states)

  unfoldable pub get_mavlink_endpoint_state_all : Manager S → Dict EndpointState
  unfolding collect_endpoint_states
  get_mavlink_endpoint_state_all m = collect_endpoint_states m.endpoint_db []

  unfoldable pub get_agent_list : Manager S → List String
  get_agent_list m = Dict.keys m.agents

  unfoldable pub get_agent_state : String → Manager S → Option AgentState
  get_agent_state name m = elim (Dict.lookup name m.agents) [
    | none ↦ none
    | some agent ↦ some (S.agent_state agent)
  ]

  -- The loop of `getAgentStateAll` over the agents, onto `states`.
  unfoldable pub collect_agent_states : Dict S.Agent → Dict AgentState → Dict AgentState
  collect_agent_states [] states = states
  collect_agent_states ((name, agent) ∷ agents) states =
      collect_agent_states agents (Dict.insert name (S.agent_state agent) states)

  unfoldable pub get_agent_state_all : Manager S → Dict AgentState
  unfolding collect_agent_states
  get_agent_state_all m = collect_agent_states m.agents []

  unfoldable pub get_agent_report : String → Manager S → Option String
  get_agent_report name m = elim (Dict.lookup name m.agents) [
    | none ↦ none
    | some agent ↦ some (S.report agent)
  ]

  -- The loop of `getAgentReportAll` over the agents, onto `reports`.
  unfoldable pub collect_agent_reports : Dict S.Agent → Dict String → Dict String
  collect_agent_reports [] reports = reports
  collect_agent_reports ((name, agent) ∷ agents) reports =
      collect_agent_reports agents (Dict.insert name (S.report agent) reports)

  unfoldable pub get_agent_report_all : Manager S → Dict String
  unfolding collect_agent_reports
  get_agent_report_all m = collect_agent_reports m.agents []
