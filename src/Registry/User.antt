-- ===== src/Registry/User.antt =====
-- src/agent_registry/AgentRegistryUser.cpp
use mavlink_hub.Base.{ℕ, String, Bool, Option, List, is_some}
use mavlink_hub.Base.Dict
use mavlink_hub.Base.Dict.{Dict}

-- What lies at each address.
abbrev pub Memory : Type 0 → Type 0
Memory D = ℕ → Dict D

-- `registry`, a reference to a map.
pub record AgentRegistryUser : Type 0 where
  pub registry : ℕ

module _ {D : Type 0} where
  -- `operator[]`; `none` is the null pointer.
  unfoldable pub at : AgentRegistryUser → Memory D → String → Option D
  at u memory key = Dict.lookup key (memory u.registry)

  unfoldable pub show_registered : AgentRegistryUser → Memory D → List String
  show_registered u memory = Dict.keys (memory u.registry)

  unfoldable pub is_registered : AgentRegistryUser → Memory D → String → Bool
  is_registered u memory key = is_some (Dict.lookup key (memory u.registry))
