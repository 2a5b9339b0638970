-- ===== src/Tests/Fixtures.antt =====
-- A small SDK, JSON library and set of dynamic libraries, with plans and managers over them.
use mavlink_hub.Base.{ℕ, String, true, some, [], ◌∷◌}
use mavlink_hub.Base.Count.{pos}
use mavlink_hub.Base.Dict
use mavlink_hub.Base.Dict.{Dict}
use mavlink_hub.Sdk.{
  Sdk, AgentState, EndpointState, idle, active, disconnected, connected, accepted, done,
  request_mavlink_endpoint, MavlinkEndpointUser,
}
use mavlink_hub.Registry.Admin.{AgentRegistry}
use mavlink_hub.Registry.User.{Memory}
use mavlink_hub.Manager.Types.{MavlinkEndpointEntry, AgentEntry, UserPlan, discard, best_effort}
use mavlink_hub.Manager.State.{Manager, Registries}

-- An agent is its state; on creation it asks for the endpoint "radio".
abbrev pub demo_sdk : Sdk
demo_sdk = record {
  AgentDefinition = String;
  AgentConfig = Dict String;
  Agent = AgentState;
  Endpoint = EndpointState;
  Message = String;
  Listener = String;
  Token = ℕ;
  TransportDefinition = String;
  TransportConfig = Dict String;
  TransportRegistry = Dict String;
  parse_agent_config = λ definition config. accepted config [];
  create = λ definition config name. request_mavlink_endpoint "radio" (λ user. done (some idle));
  configure = λ agent config. done (agent, true);
  start = λ agent. done (active, true);
  stop = λ agent. done (idle, true);
  destroy = λ agent. done tt;
  agent_state = λ agent. agent;
  report = λ agent. "a report";
  transport_at = λ registry type. Dict.lookup type registry;
  parse_transport_config = λ definition config. accepted config [];
  add_transport_definition =
      λ registry name definition. (Dict.emplace name definition registry, true);
  create_endpoint = λ registry. disconnected;
  connect = λ endpoint type config. (connected, true);
  disconnect = λ endpoint. (disconnected, true);
  endpoint_state = λ endpoint. endpoint;
  endpoint_create_listener = λ endpoint listener. (endpoint, 1);
  endpoint_num_of_listener = λ endpoint. pos 0;
  endpoint_write_message = λ endpoint msg. (endpoint, pos 1);
}

abbrev pub demo_registry : AgentRegistry
demo_registry = record { d = 0 }

abbrev pub demo_memory : Memory String
demo_memory a = ("logger", "logs messages") ∷ []

abbrev pub demo_registries : Registries demo_sdk
demo_registries = record {
  agent_registry = record { registry = 0 };
  memory = demo_memory;
  transport_registry = ("udp", "over UDP") ∷ [];
}

abbrev pub demo_endpoint : String → MavlinkEndpointEntry
demo_endpoint type = record { type = type; config = []; connect_on_create = true }

abbrev pub demo_agent : String → AgentEntry
demo_agent type = record { type = type; config = []; start_on_create = true }

-- One valid endpoint, one valid agent.
abbrev pub good_plan : UserPlan
good_plan = record {
  endpoint_list = ("radio", demo_endpoint "udp") ∷ [];
  agent_list = ("log", demo_agent "logger") ∷ [];
  policy = best_effort;
}

-- The agent's type is not registered.
abbrev pub bad_plan : UserPlan
bad_plan = record {
  endpoint_list = ("radio", demo_endpoint "udp") ∷ [];
  agent_list = ("log", demo_agent "camera") ∷ [];
  policy = discard;
}

abbrev pub hub : Manager demo_sdk
hub = record {
  endpoint_db =
      ("serial", record { id = 0; endpoint = connected; user_count = ("log", pos 1) ∷ [] }) ∷ [];
  agents = ("old", idle) ∷ [];
  next_id = 1;
}

abbrev pub handle : MavlinkEndpointUser
handle = record { endpoint = 0; endpoint_name = "serial"; user_name = "log" }
