-- ===== src/Base/Dict.antt =====
-- `std::unordered_map` with string keys, as an association list. The list's order stands for the
-- order of iteration, which the C++ standard leaves open: theorems hold for every list.
use Prim.Native.String.{String}
use mathlib.Core.Path.{◌≡◌, refl}
use mathlib.Core.Bool.{true, false}
use mathlib.Core.Option.{Option, none, some}
use mathlib.Core.List.{List, [], ◌∷◌}
use native.Mathlib.Omega.{arith}
use text.Mathlib.Text.{◌==◌}
use text.Mathlib.TextEquality.{eq_iff}
use text.Mathlib.TextPositions.{eq_refl}
use mavlink_hub.Base.Tests.{if◌then◌else◌, is_some}

abbrev pub Dict {ℓ} : Type ℓ → Type ℓ
Dict V = List (String × V)

module _ {ℓ} {V : Type ℓ} where
  -- `find(key)`; `none` is `end()`.
  unfoldable pub lookup : String → Dict V → Option V
  lookup key [] = none
  lookup key ((here, value) ∷ rest) = elim (here == key) [
    | true ↦ some value
    | false ↦ lookup key rest
  ]

  -- `m[key] = value`: the node of the key is overwritten in its place, or a node is added.
  unfoldable pub insert : String → V → Dict V → Dict V
  insert key value [] = (key, value) ∷ []
  insert key value ((here, old) ∷ rest) = elim (here == key) [
    | true ↦ (key, value) ∷ rest
    | false ↦ (here, old) ∷ insert key value rest
  ]

  -- `erase(k)`
  unfoldable pub erase : String → Dict V → Dict V
  erase k [] = []
  erase k ((j, w) ∷ m) = let rest = erase k m in if j == k then rest else (j, w) ∷ rest

  -- `emplace(k, v)`: an entry that is there stays.
  unfoldable pub emplace : String → V → Dict V → Dict V
  emplace k v m = if is_some (lookup k m) then m else insert k v m

  unfoldable pub keys : Dict V → List String
  keys [] = []
  keys ((j, w) ∷ m) = j ∷ keys m

  -- The keys of a map are distinct.
  abbrev pub NodupKeys : Dict V → Type ℓ
  NodupKeys [] = Unit
  NodupKeys ((k, v) ∷ m) = (lookup k m ≡ none) × NodupKeys m

  pub lookup-nil : (k : String) → ◌≡◌ {A = Option V} (lookup k []) none
  unfolding lookup
  lookup-nil k = refl

  pub lookup-insert :
      (key other : String) (value : V) (db : Dict V)
      → lookup other (insert key value db) ≡ (if key == other then some value else lookup other db)
  unfolding lookup insert
  lookup-insert key other value [] = ground arith
  lookup-insert key other value ((here, old) ∷ rest) = ground (
    arith,
    lookup-insert key other value rest,
    eq_iff here key,
    eq_iff here other,
    eq_iff key other,
  )

  pub lookup-insert_self : (k : String) (v : V) (m : Dict V) → lookup k (insert k v m) ≡ some v
  lookup-insert_self k v m = simp (lookup-insert, eq_refl)

  pub lookup-erase :
      (k j : String) (m : Dict V) → lookup j (erase k m) ≡ (if k == j then none else lookup j m)
  unfolding lookup erase
  lookup-erase k j [] = ground arith
  lookup-erase k j ((i, w) ∷ m) =
      ground (arith, eq_iff k j, eq_iff i k, eq_iff i j, lookup-erase k j m)

  pub lookup-emplace :
      (k j : String) (v : V) (m : Dict V)
      → lookup j (emplace k v m)
        ≡ (if k == j then (if is_some (lookup k m) then lookup k m else some v) else lookup j m)
  unfolding emplace
  lookup-emplace k j v m = ground (arith, lookup-insert k j v m, eq_iff k j)

  pub insert-NodupKeys : (k : String) (v : V) (m : Dict V) → NodupKeys m → NodupKeys (insert k v m)
  unfolding insert lookup
  insert-NodupKeys k v [] u = (refl, tt)
  insert-NodupKeys k v ((j, w) ∷ m) u =
      ground (arith, eq_iff j k, eq_iff k j, lookup-insert k j v m, insert-NodupKeys k v m u.1)

  pub erase-NodupKeys : (k : String) (m : Dict V) → NodupKeys m → NodupKeys (erase k m)
  unfolding erase lookup
  erase-NodupKeys k [] u = tt
  erase-NodupKeys k ((j, w) ∷ m) u =
      ground (arith, lookup-erase k j m, eq_iff k j, eq_iff j k, erase-NodupKeys k m u.1)

  pub emplace-NodupKeys :
      (k : String) (v : V) (m : Dict V) → NodupKeys m → NodupKeys (emplace k v m)
  unfolding emplace
  emplace-NodupKeys k v m u = ground (arith, insert-NodupKeys k v m u)
