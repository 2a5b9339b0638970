-- ===== src/Manager/Counts.antt =====
-- The reference counts of src/manager/Manager.cpp refine the multiset of live handles: one handle
-- of a requester on an endpoint is one reference.
use mavlink_hub.Base.{
  ℕ, zero, suc, ◌+◌, String, ◌≡◌, ◌&&◌, ◌==◌, eq_iff, Option, none, some, List, [], ◌∷◌, ◌++◌,
  if◌then◌else◌, arith, inl, inr, Option-cases,
}
use mavlink_hub.Base.Count.{ℤ, pos, inc, dec}
use mavlink_hub.Base.Dict.{Dict, lookup, lookup-insert, lookup-erase}
use mavlink_hub.Sdk.{MavlinkEndpointUser}
use mavlink_hub.Manager.Users.{count_up, count_down}

-- How many of the handles are a requester's on an endpoint's name.
abbrev pub uses : String → String → List MavlinkEndpointUser → ℕ
uses ep user [] = 0
uses ep user (h ∷ live) =
    (if h.endpoint_name == ep && h.user_name == user then 1 else 0) + uses ep user live

-- The counter for so many handles: no entry at all for none.
abbrev pub counter : ℕ → Option ℤ
counter zero = none
counter (suc n) = some (pos (suc n))

pub lookup-count_up :
    (r u : String) (counts : Dict ℤ) (n : ℕ)
    → lookup u counts ≡ counter n
    → lookup u (count_up r counts) ≡ counter ((if r == u then 1 else 0) + n)
unfolding count_up
lookup-count_up r u counts n h = elim (Option-cases (lookup r counts)) [
  | inl e ↦ rw (e, count_up) (ground (arith, eq_iff r u, lookup-insert r u (pos 1) counts))
  | inr (c, e) ↦ rw (e, count_up) (ground (arith, eq_iff r u, lookup-insert r u (inc c) counts))
]

pub lookup-count_down :
    (r u : String) (counts : Dict ℤ) (n : ℕ)
    → lookup u counts ≡ counter ((if r == u then 1 else 0) + n)
    → lookup u (count_down r counts) ≡ counter n
unfolding count_down
lookup-count_down r u counts n h = elim (Option-cases (lookup r counts)) [
  | inl e ↦ rw (e, count_down) (ground (arith, eq_iff r u))
  | inr (c, e) ↦
      rw (e, count_down)
        (ground (arith, eq_iff r u, lookup-insert r u (dec c) counts, lookup-erase r u counts))
]

pub uses-append :
    (ep user : String) (xs ys : List MavlinkEndpointUser)
    → uses ep user (xs ++ ys) ≡ uses ep user xs + uses ep user ys
uses-append ep user [] ys = omega arith
uses-append ep user (h ∷ xs) ys = omega (arith, uses-append ep user xs ys)

pub uses-middle :
    (ep user : String) (xs ys : List MavlinkEndpointUser) (h : MavlinkEndpointUser)
    → uses ep user (xs ++ h ∷ ys)
      ≡ (if h.endpoint_name == ep && h.user_name == user then 1 else 0) + uses ep user (xs ++ ys)
uses-middle ep user xs ys h =
    omega (arith, uses-append ep user xs (h ∷ ys), uses-append ep user xs ys)
