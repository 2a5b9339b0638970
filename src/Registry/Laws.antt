-- ===== src/Registry/Laws.antt =====
-- How the admin operations of src/agent_registry show in the views that share its map.
use mavlink_hub.Base.{
  ℕ, ◌≡◌, String, true, ◌==◌, eq_iff, ◌&&◌, not, none, some, if◌then◌else◌, same, arith,
}
use mavlink_hub.Base.Dict.{
  NodupKeys, lookup-emplace, lookup-erase, insert-NodupKeys, erase-NodupKeys, emplace,
}
use mavlink_hub.Registry.Admin.{
  AgentRegistry, add_agent_definition, remove_agent_definition, create_user,
}
use mavlink_hub.Registry.User
use mavlink_hub.Registry.User.{Memory}

pub same_refl : (a : ℕ) → same a a ≡ true
same_refl a = ground arith

module _ {D : Type 0} (r : AgentRegistry) (key : String) (memory : Memory D) where
  -- After an add, every view of the registry shows the new definition under a free key and what it
  -- showed before under any other key; a taken key keeps its definition. The returned flag is true
  -- exactly when the key was free.
  pub view-add :
      (def : D) (j : String)
      → (User.at (create_user r) (add_agent_definition r key def memory).0 j ≡ (
          if key == j && not (User.is_registered (create_user r) memory key)
          then some def
          else User.at (create_user r) memory j))
        × ((add_agent_definition r key def memory).1
            ≡ not (User.is_registered (create_user r) memory key))
  unfolding User.at User.is_registered create_user add_agent_definition
  view-add def j =
      ground (arith, same_refl r.d, eq_iff key j, lookup-emplace key j def (memory r.d))

  -- After a removal, every view of the registry shows nothing under the key and what it showed
  -- before under any other. The returned flag is true exactly when the key was registered.
  pub view-remove :
      (j : String)
      → (User.at (create_user r) (remove_agent_definition r key memory).0 j
          ≡ (if key == j then none else User.at (create_user r) memory j))
        × ((remove_agent_definition r key memory).1 ≡ User.is_registered (create_user r) memory key)
  unfolding User.at User.is_registered create_user remove_agent_definition
  view-remove j = ground (arith, same_refl r.d, eq_iff key j, lookup-erase key j (memory r.d))

  pub add-NodupKeys :
      (def : D) → NodupKeys (memory r.d) → NodupKeys ((add_agent_definition r key def memory).0 r.d)
  unfolding add_agent_definition emplace
  add-NodupKeys def u = ground (arith, same_refl r.d, insert-NodupKeys key def (memory r.d) u)

  pub remove-NodupKeys :
      NodupKeys (memory r.d) → NodupKeys ((remove_agent_definition r key memory).0 r.d)
  unfolding remove_agent_definition
  remove-NodupKeys u = ground (arith, same_refl r.d, erase-NodupKeys key (memory r.d) u)
