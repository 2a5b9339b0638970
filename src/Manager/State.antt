-- ===== src/Manager/State.antt =====
-- The data of src/manager/Manager.cpp.
use mavlink_hub.Base.{ℕ, []}
use mavlink_hub.Base.Count.{ℤ}
use mavlink_hub.Base.Dict.{Dict}
use mavlink_hub.Sdk.{Sdk}
use mavlink_hub.Common.{OperationResult}
use mavlink_hub.Registry.User.{Memory, AgentRegistryUser}

-- `id` is the identity of the endpoint object, which weak pointers refer to.
pub record EndpointEntry (S : Sdk) : Type 0 where
  pub id : ℕ
  pub endpoint : S.Endpoint
  pub user_count : Dict ℤ

-- `next_id` is the identity that the next endpoint object gets.
pub record Manager (S : Sdk) : Type 0 where
  pub endpoint_db : Dict (EndpointEntry S)
  pub agents : Dict S.Agent
  pub next_id : ℕ

-- What the references `agent_registry` and `transport_registry` lead to.
pub record Registries (S : Sdk) : Type 0 where
  pub agent_registry : AgentRegistryUser
  pub memory : Memory S.AgentDefinition
  pub transport_registry : S.TransportRegistry

-- An operation returns the manager as it is afterwards and its report.
abbrev pub Outcome : Sdk → Type 0
Outcome S = Manager S × OperationResult

-- `Manager::Manager`: nothing is registered.
abbrev pub empty_manager : (S : Sdk) → Manager S
empty_manager S = record { endpoint_db = []; agents = []; next_id = 0 }
