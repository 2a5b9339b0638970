-- ===== src/Sdk.antt =====
-- What the hub takes from packages that are not part of the repository: mavlink_hub_sdk (agents),
-- mavlink_endpoint and byte_transport. Their types and calls are the fields of `Sdk`, which the
-- other modules take as a parameter. An agent's code may call back into the manager through its
-- IManagerResourceRequester and the handles that it got: a `Script` is the tree of these calls.
use mavlink_hub.Base.{String, Bool, Option, List}
use mavlink_hub.Base.Count.{ℤ}
use mavlink_hub.Base.Dict.{Dict}
use mavlink_hub.Base.{ℕ}

-- AgentState. The switches of the hub name four enumerators and have a default branch.
pub data AgentState : Type 0 where
  idle starting active stopping : AgentState
  other : ℕ → AgentState

-- MavlinkEndpointState, likewise.
pub data EndpointState : Type 0 where
  disconnected connecting connected disconnecting : EndpointState
  other : ℕ → EndpointState

-- What `parseConfig` returns: `ok()` with the parsed value, or not; with messages.
pub data ParseResult (C : Type 0) : Type 0 where
  accepted : C → List String → ParseResult C
  rejected : List String → ParseResult C

-- src/manager/mavlink_endpoint_user/MavlinkEndpointUser.cpp, MavlinkEndpointUserImpl. `endpoint` is
-- the identity of the MavlinkEndpoint object that the weak pointer was made from.
pub record MavlinkEndpointUser : Type 0 where
  pub endpoint : ℕ
  pub endpoint_name : String
  pub user_name : String

pub data Script (Message Listener Token R : Type 0) : Type 0 where
  done : R → Script Message Listener Token R
  request_mavlink_endpoint :
      String
      → (Option MavlinkEndpointUser → Script Message Listener Token R)
      → Script Message Listener Token R
  get_mavlink_endpoint_list :
      (List String → Script Message Listener Token R) → Script Message Listener Token R
  release : MavlinkEndpointUser → Script Message Listener Token R → Script Message Listener Token R
  create_listener :
      MavlinkEndpointUser
      → Listener
      → (Option Token → Script Message Listener Token R)
      → Script Message Listener Token R
  get_num_of_listener :
      MavlinkEndpointUser
      → (Option ℤ → Script Message Listener Token R)
      → Script Message Listener Token R
  write_message :
      MavlinkEndpointUser
      → Message
      → (Option ℤ → Script Message Listener Token R)
      → Script Message Listener Token R
  get_state :
      MavlinkEndpointUser
      → (Option EndpointState → Script Message Listener Token R)
      → Script Message Listener Token R

pub record Sdk : Type 1 where
  pub AgentDefinition : Type 0
  pub AgentConfig : Type 0
  pub Agent : Type 0
  pub Endpoint : Type 0
  pub Message : Type 0
  pub Listener : Type 0
  pub Token : Type 0
  pub TransportDefinition : Type 0
  pub TransportConfig : Type 0
  pub TransportRegistry : Type 0
  -- AgentDefinition. `create` is given the name that its requester carries.
  pub parse_agent_config : AgentDefinition → Dict String → ParseResult AgentConfig
  pub create : AgentDefinition → AgentConfig → String → Script Message Listener Token (Option Agent)
  -- Agent: its methods return the agent as it is afterwards; `destroy` is its destructor.
  pub configure : Agent → AgentConfig → Script Message Listener Token (Agent × Bool)
  pub start : Agent → Script Message Listener Token (Agent × Bool)
  pub stop : Agent → Script Message Listener Token (Agent × Bool)
  pub destroy : Agent → Script Message Listener Token (Unit {0})
  pub agent_state : Agent → AgentState
  pub report : Agent → String
  -- The transport registry and its definitions. `none` stands for a type that is not registered.
  pub transport_at : TransportRegistry → String → Option TransportDefinition
  pub parse_transport_config : TransportDefinition → Dict String → ParseResult TransportConfig
  pub add_transport_definition :
      TransportRegistry → String → TransportDefinition → TransportRegistry × Bool
  -- MavlinkEndpoint
  pub create_endpoint : TransportRegistry → Endpoint
  pub connect : Endpoint → String → Dict String → Endpoint × Bool
  pub disconnect : Endpoint → Endpoint × Bool
  pub endpoint_state : Endpoint → EndpointState
  pub endpoint_create_listener : Endpoint → Listener → Endpoint × Token
  pub endpoint_num_of_listener : Endpoint → ℤ
  pub endpoint_write_message : Endpoint → Message → Endpoint × ℤ

-- A script over the types of one SDK.
abbrev pub Calls : Sdk → Type 0 → Type 0
Calls S R = Script S.Message S.Listener S.Token R
