-- ===== src/Json/PlanLaws.antt =====
-- What the readers of user plans in src/common/json_utils/JsonUtils.cpp give.
use mavlink_hub.Base.{String, ◌≡◌, refl, Bool, true, false, List, [], ◌∷◌, is_some, inl, inr, ◌⊎◌}
use mavlink_hub.Base.Dict
use mavlink_hub.Base.Dict.{Dict, NodupKeys, insert-NodupKeys}
use mavlink_hub.Json.Api.{JsonApi}
use mavlink_hub.Json.Decode.{Element, raised, malformed, entry}

-- What jsoncons documents of `as_bool`: it does not throw for a Boolean.
pub record ReadsBools (J : JsonApi) : Type 0 where
  pub as_bool : (j : J.Json) → J.is_bool j ≡ true → is_some (J.as_bool j) ≡ true

pub Element-cases :
    {V : Type 0} (x : Element V)
    → (x ≡ raised) ⊎ (x ≡ malformed) ⊎ ((name : String) × (v : V) × (x ≡ entry name v))
Element-cases raised = inl refl
Element-cases malformed = inr (inl refl)
Element-cases (entry name v) = inr (inr (name, v, refl))

module _ {J V : Type 0} (read : J → Element V) where
  -- The entries among the elements, in order.
  abbrev pub entries : List J → Dict V
  entries [] = []
  entries (e ∷ es) = elim (read e) [
    | raised ↦ entries es
    | malformed ↦ entries es
    | entry name v ↦ (name, v) ∷ entries es
  ]

  abbrev pub all_formed : List J → Bool
  all_formed [] = true
  all_formed (e ∷ es) = elim (read e) [
    | raised ↦ all_formed es
    | malformed ↦ false
    | entry name v ↦ all_formed es
  ]

-- The entries written one by one: the last of a name stays.
abbrev pub store : {V : Type 0} → Dict V → Dict V → Dict V
store [] list = list
store ((name, v) ∷ rest) list = store rest (Dict.insert name v list)

store-NodupKeys :
    {V : Type 0} (es : Dict V) (list : Dict V) → NodupKeys list → NodupKeys (store es list)
store-NodupKeys [] list u = u
store-NodupKeys ((name, v) ∷ es) list u =
    store-NodupKeys es (Dict.insert name v list) (insert-NodupKeys name v list u)
