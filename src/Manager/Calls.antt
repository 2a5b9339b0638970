-- ===== src/Manager/Calls.antt =====
-- Sequences of calls on src/manager/Manager.cpp and on the handles, and what they leave of the
-- endpoints' objects.
use mavlink_hub.Base.{
  ◌≤◌, ◌<◌, String, ◌≡◌, refl, ◌∙◌, ◌==◌, eq_iff, some, arith, ◌⊎◌, inl, inr, Bool-cases,
}
use mavlink_hub.Base.Dict
use mavlink_hub.Base.Dict.{
  Dict, NodupKeys, lookup, lookup-insert, lookup-erase, lookup-emplace, insert-NodupKeys,
  erase-NodupKeys, emplace-NodupKeys,
}
use mavlink_hub.Sdk.{Sdk, MavlinkEndpointUser}
use mavlink_hub.Manager.State.{Manager, EndpointEntry, Registries}
use mavlink_hub.Manager.Users.{create_mavlink_endpoint_user}
use mavlink_hub.Manager.Handles
use mavlink_hub.Manager.Endpoints.{
  add_mavlink_endpoint, remove_mavlink_endpoint, connect_mavlink_endpoint,
  disconnect_mavlink_endpoint,
}

module _ (S : Sdk) where
  -- One call, by the owner of the manager, by an agent or on a handle.
  pub data Call : Manager S → Manager S → Type 0 where
    creates : (m : Manager S) (ep r : String) → Call m (create_mavlink_endpoint_user S ep r m).0
    releases : (m : Manager S) (h : MavlinkEndpointUser) → Call m (Handles.destroy_user S h m)
    listens :
        (m : Manager S) (h : MavlinkEndpointUser) (listener : S.Listener)
        → Call m (Handles.create_listener S h listener m).0
    writes :
        (m : Manager S) (h : MavlinkEndpointUser) (msg : S.Message)
        → Call m (Handles.write_message S h msg m).0
    adds :
        (m : Manager S) (reg : Registries S) (name : String)
        → Call m (add_mavlink_endpoint S reg name m).0
    removes : (m : Manager S) (name : String) → Call m (remove_mavlink_endpoint S name m).0
    connects :
        (m : Manager S) (name type : String) (config : Dict String)
        → Call m (connect_mavlink_endpoint S name type config m).0
    disconnects : (m : Manager S) (name : String) → Call m (disconnect_mavlink_endpoint S name m).0
    agents_change : (m : Manager S) (agents : Dict S.Agent) → Call m (record m { agents = agents })

  -- Any number of calls.
  pub data Calls (m : Manager S) : Manager S → Type 0 where
    here : Calls m m
    next : {n n' : Manager S} → Calls m n → Call n n' → Calls m n'

  -- An entry of `now` is one of `was`, as to its object, or its object is made since.
  abbrev pub Origin : Manager S → Manager S → String → EndpointEntry S → Type 0
  Origin was now name entry =
      ((old : EndpointEntry S) × ((lookup name was.endpoint_db ≡ some old) × (old.id ≡ entry.id)))
      ⊎ ((was.next_id ≤ entry.id) × (entry.id < now.next_id))

  pub record Evolves (was now : Manager S) : Type 0 where
    pub newer : was.next_id ≤ now.next_id
    pub distinct : NodupKeys now.endpoint_db
    pub origin :
        (name : String) (entry : EndpointEntry S)
        → lookup name now.endpoint_db ≡ some entry
        → Origin was now name entry

  -- The entry of a name is replaced by one of the same object.
  pub insert-Evolves :
      (name : String) (old entry : EndpointEntry S) (m : Manager S)
      → NodupKeys m.endpoint_db
      → lookup name m.endpoint_db ≡ some old
      → old.id ≡ entry.id
      → Evolves m (record m { endpoint_db = Dict.insert name entry m.endpoint_db })
  insert-Evolves name old entry m u e i = record {
    newer = omega arith;
    distinct = insert-NodupKeys name entry m.endpoint_db u;
    origin = λ j now h. elim (Bool-cases (name == j)) [
      | inl hit ↦ inl (old, ground (arith, eq_iff name j, lookup-insert name j entry m.endpoint_db))
      | inr miss ↦ inl (now, ground (arith, lookup-insert name j entry m.endpoint_db))
    ];
  }

  pub Evolves-refl : (m : Manager S) → NodupKeys m.endpoint_db → Evolves m m
  Evolves-refl m u = record {
    newer = omega arith;
    distinct = u;
    origin = λ name entry h. inl (entry, (h, refl));
  }

  pub Evolves-trans : (m n k : Manager S) → Evolves m n → Evolves n k → Evolves m k
  Evolves-trans m n k a b = record {
    newer = omega (arith, a.newer, b.newer);
    distinct = b.distinct;
    origin = λ name entry h. elim (b.origin name entry h) [
      | inl (old, (g, i)) ↦ elim (a.origin name old g) [
        | inl (oldest, (f, j)) ↦ inl (oldest, (f, j ∙ i))
        | inr (lo, hi) ↦ inr (ground (arith, b.newer))
      ]
      | inr (lo, hi) ↦ inr (ground (arith, a.newer))
    ];
  }
