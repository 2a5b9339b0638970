-- ===== src/Registry/Admin.antt =====
-- src/agent_registry/AgentRegistry.cpp
use mavlink_hub.Base.{ℕ, same, String, Bool, true, false, Option, List, if◌then◌else◌, is_some}
use mavlink_hub.Base.Dict
use mavlink_hub.Base.Dict.{Dict}
use mavlink_hub.Registry.User.{Memory, AgentRegistryUser}

-- `d`, the address of the implementation with its map.
pub record AgentRegistry : Type 0 where
  pub d : ℕ

module _ {D : Type 0} where
  abbrev pub store : ℕ → Dict D → Memory D → Memory D
  store a m memory b = if same a b then m else memory b

  unfoldable pub add_agent_definition : AgentRegistry → String → D → Memory D → Memory D × Bool
  add_agent_definition r key def memory =
      if is_some (Dict.lookup key (memory r.d))
      then (memory, false)
      else (store r.d (Dict.emplace key def (memory r.d)) memory, true)

  unfoldable pub remove_agent_definition : AgentRegistry → String → Memory D → Memory D × Bool
  remove_agent_definition r key memory =
      if is_some (Dict.lookup key (memory r.d))
      then (store r.d (Dict.erase key (memory r.d)) memory, true)
      else (memory, false)

  -- `operator[]`; `none` is the null pointer.
  unfoldable pub at : AgentRegistry → Memory D → String → Option D
  at r memory key = Dict.lookup key (memory r.d)

  unfoldable pub show_registered : AgentRegistry → Memory D → List String
  show_registered r memory = Dict.keys (memory r.d)

  unfoldable pub is_registered : AgentRegistry → Memory D → String → Bool
  is_registered r memory key = is_some (Dict.lookup key (memory r.d))

unfoldable pub create_user : AgentRegistry → AgentRegistryUser
create_user r = record { registry = r.d }
