-- ===== src/Registry/Refinement.antt =====
-- src/agent_registry/AgentRegistryAdminAccess.h: what the calls of an administrator promise, and that
-- the registry and its views keep it.
use mavlink_hub.Base.{
  ◌≡◌, refl, ap, ◌∙◌, String, Bool, true, false, ◌==◌, eq_iff, Option, none, some, List, [], ◌∷◌,
  if◌then◌else◌, is_some, arith,
}
use mavlink_hub.Base.Dict.{NodupKeys}
use mavlink_hub.Registry.Admin.{
  AgentRegistry, add_agent_definition, remove_agent_definition, create_user,
}
use mavlink_hub.Registry.User
use mavlink_hub.Registry.User.{Memory}
use mavlink_hub.Registry.Laws.{view-add, view-remove, add-NodupKeys, remove-NodupKeys}
use mathlib.Core.Path.{fun_ext, ap₂}

pub data AdminCall (D : Type 0) : Type 0 where
  adds : String → D → AdminCall D
  removes : String → AdminCall D

module _ {D : Type 0} where
  -- The promise: a registry is the set of its definitions by key.
  abbrev promised : AdminCall D → (String → Option D) → (String → Option D) × Bool
  promised (adds key def) s =
      if is_some (s key) then (s, false) else (λ j. if key == j then some def else s j, true)
  promised (removes key) s =
      if is_some (s key) then (λ j. if key == j then none else s j, true) else (s, false)

  abbrev call : AgentRegistry → AdminCall D → Memory D → Memory D × Bool
  call r (adds key def) memory = add_agent_definition r key def memory
  call r (removes key) memory = remove_agent_definition r key memory

  -- The calls one after the other, with what each returns.
  abbrev pub promised_all :
      List (AdminCall D) → (String → Option D) → (String → Option D) × List Bool
  promised_all [] s = (s, [])
  promised_all (c ∷ calls) s =
      let made = promised c s in let rest = promised_all calls made.0 in (rest.0, made.1 ∷ rest.1)

  abbrev pub call_all : AgentRegistry → List (AdminCall D) → Memory D → Memory D × List Bool
  call_all r [] memory = (memory, [])
  call_all r (c ∷ calls) memory =
      let made = call r c memory in let rest = call_all r calls made.0 in (rest.0, made.1 ∷ rest.1)

  abbrev shown : AgentRegistry → Memory D → String → Option D
  shown r memory = User.at (create_user r) memory

  call-shown :
      (r : AgentRegistry) (c : AdminCall D) (memory : Memory D) (j : String)
      → shown r (call r c memory).0 j ≡ (promised c (shown r memory)).0 j
  unfolding User.is_registered User.at create_user
  call-shown r (adds key def) memory j = ground (arith, view-add r key memory def j, eq_iff key j)
  call-shown r (removes key) memory j = ground (arith, view-remove r key memory j, eq_iff key j)

  call-returns :
      (r : AgentRegistry) (c : AdminCall D) (memory : Memory D)
      → (call r c memory).1 ≡ (promised c (shown r memory)).1
  unfolding User.is_registered User.at create_user
  call-returns r (adds key def) memory = ground (arith, view-add r key memory def key)
  call-returns r (removes key) memory = ground (arith, view-remove r key memory key)

  call-NodupKeys :
      (r : AgentRegistry) (c : AdminCall D) (memory : Memory D)
      → NodupKeys (memory r.d)
      → NodupKeys ((call r c memory).0 r.d)
  call-NodupKeys r (adds key def) memory u = add-NodupKeys r key memory def u
  call-NodupKeys r (removes key) memory u = remove-NodupKeys r key memory u

  call_all-shown :
      (r : AgentRegistry) (calls : List (AdminCall D)) (memory : Memory D)
      → (shown r (call_all r calls memory).0, (call_all r calls memory).1)
        ≡ promised_all calls (shown r memory)
  call_all-shown r [] memory = refl
  call_all-shown r (c ∷ calls) memory =
      let made = call r c memory in
      ap₂ (λ rest flag. (rest.0, flag ∷ rest.1))
        (call_all-shown r calls made.0 ∙ ap (promised_all calls) (fun_ext (call-shown r c memory)))
        (call-returns r c memory)

  call_all-NodupKeys :
      (r : AgentRegistry) (calls : List (AdminCall D)) (memory : Memory D)
      → NodupKeys (memory r.d)
      → NodupKeys ((call_all r calls memory).0 r.d)
  call_all-NodupKeys r [] memory u = u
  call_all-NodupKeys r (c ∷ calls) memory u =
      call_all-NodupKeys r calls (call r c memory).0 (call-NodupKeys r c memory u)

  -- Whatever calls an administrator makes, one after the other, every view of the registry, taken
  -- before or after them, shows under each key what a plain map from keys to definitions would hold
  -- after the same calls, each call returns what it would return there, and the keys stay distinct.
  pub registry_refines :
      (r : AgentRegistry) (calls : List (AdminCall D)) (memory : Memory D)
      → NodupKeys (memory r.d)
      → ((User.at (create_user r) (call_all r calls memory).0, (call_all r calls memory).1)
          ≡ promised_all calls (User.at (create_user r) memory))
        × NodupKeys ((call_all r calls memory).0 r.d)
  registry_refines r calls memory u =
      (call_all-shown r calls memory, call_all-NodupKeys r calls memory u)
