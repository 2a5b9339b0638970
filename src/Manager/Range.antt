-- ===== src/Manager/Range.antt =====
-- The range of the reference counters of src/manager/Manager.cpp, which are of type int.
use mavlink_hub.Base.{
  ℕ, zero, suc, ◌^◌, ◌≤◌, ◌<◌, String, ◌≡◌, sym, ◌∙◌, some, List, [], ◌∷◌, arith,
}
use mavlink_hub.Base.Count.{ℤ, pos}
use mavlink_hub.Base.Length.{length}
use mavlink_hub.Base.Dict.{lookup, lookup-nil}
use mavlink_hub.Sdk.{Sdk, MavlinkEndpointUser}
use mavlink_hub.Manager.State.{EndpointEntry, empty_manager}
use mavlink_hub.Manager.Counts.{uses, counter}
use mavlink_hub.Manager.History.{World, IsCounted, Reach}
use mavlink_hub.Manager.Preserved.{Reach-IsCounted}

uses-length : (ep user : String) (live : List MavlinkEndpointUser) → uses ep user live ≤ length live
uses-length ep user [] = omega arith
uses-length ep user (h ∷ live) = ground (arith, uses-length ep user live)

counter-pos : (n : ℕ) (c : ℤ) → counter n ≡ some c → (c ≡ pos n) × (1 ≤ n)
counter-pos zero c e = ground arith
counter-pos (suc n) c e = ground arith

module _ (S : Sdk) where
  abbrev new_world : World S
  new_world = record { manager = empty_manager S; live = [] }

  new_world-IsCounted : IsCounted new_world
  new_world-IsCounted = record {
    distinct = tt;
    tracks = λ ep user entry e. ground (arith, lookup-nil {V = EndpointEntry S} ep);
  }

  -- In whatever state a history of calls has led a new manager to, while fewer than 2 ^ 31 handles
  -- are alive: every reference counter that an endpoint holds is at least one and fits an int of 32
  -- bits. In the history an endpoint is added only under a name that no live handle carries, and
  -- only a live handle is released.
  pub counters_fit :
      (w : World S) (ep user : String) (entry : EndpointEntry S) (c : ℤ)
      → Reach S (record { manager = empty_manager S; live = [] }) w
      → length w.live < 2 ^ 31
      → lookup ep w.manager.endpoint_db ≡ some entry
      → lookup user entry.user_count ≡ some c
      → (n : ℕ) × (c ≡ pos n) × (1 ≤ n) × (n < 2 ^ 31)
  counters_fit w ep user entry c reach few e f =
      let counted = Reach-IsCounted reach new_world-IsCounted in
      let n = uses ep user w.live in
      let range = counter-pos n c (sym (counted.tracks ep user entry e) ∙ f) in
      (n, range.0, range.1, omega (arith, uses-length ep user w.live, few))
