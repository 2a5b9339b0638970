-- ===== src/Manager/Identity.antt =====
-- The objects of the endpoints of src/manager/Manager.cpp: each stays with one name.
use mavlink_hub.Base.{
  ℕ, ◌<◌, String, ◌≡◌, sym, ◌∙◌, eq_iff, some, none, [], ◌∷◌, arith, ◌⊎◌, inl, inr, Option-cases,
  true, false, same,
}
use mavlink_hub.Base.Dict
use mavlink_hub.Base.Dict.{
  Dict, NodupKeys, lookup, lookup-insert, lookup-erase, lookup-emplace, lookup-nil,
  emplace-NodupKeys,
}
use mavlink_hub.Sdk.{Sdk}
use mavlink_hub.Manager.State.{Manager, EndpointEntry, Registries}
use mavlink_hub.Manager.Users.{create_mavlink_endpoint_user, remove_mavlink_endpoint_user}
use mavlink_hub.Manager.Handles
use mavlink_hub.Manager.Endpoints.{
  add_mavlink_endpoint, remove_mavlink_endpoint, connect_mavlink_endpoint,
  disconnect_mavlink_endpoint,
}
use mavlink_hub.Manager.Calls.{
  Call, creates, releases, listens, writes, adds, removes, connects, disconnects, agents_change,
  Evolves,
}
use mavlink_hub.Manager.Evolution.{Call-Evolves}
use mavlink_hub.Manager.History.{lock-lookup}

module _ (S : Sdk) where
  -- The objects of the endpoints are distinct, and were all made.
  pub record IsIdentified (m : Manager S) : Type 0 where
    pub distinct : NodupKeys m.endpoint_db
    pub older :
        (name : String) (entry : EndpointEntry S)
        → lookup name m.endpoint_db ≡ some entry
        → entry.id < m.next_id
    pub single :
        (j k : String) (a b : EndpointEntry S)
        → lookup j m.endpoint_db ≡ some a
        → lookup k m.endpoint_db ≡ some b
        → a.id ≡ b.id
        → j ≡ k

  Evolves-older :
      (m n : Manager S)
      → Evolves S m n
      → IsIdentified m
      → (name : String) (entry : EndpointEntry S) → lookup name n.endpoint_db ≡ some entry
      → entry.id < n.next_id
  Evolves-older m n ev v name entry h = elim (ev.origin name entry h) [
    | inl (old, (g, i)) ↦ ground (arith, v.older name old g, ev.newer)
    | inr (lo, hi) ↦ hi
  ]

  -- No name but `ep`, if any, has the object.
  abbrev pub OnlyAt : String → ℕ → Manager S → Type 0
  OnlyAt ep id m =
      (name : String) (entry : EndpointEntry S)
      → lookup name m.endpoint_db ≡ some entry
      → entry.id ≡ id
      → name ≡ ep

  abbrev pub IsGone : ℕ → Manager S → Type 0
  IsGone id m =
      (name : String) (entry : EndpointEntry S)
      → lookup name m.endpoint_db ≡ some entry
      → same entry.id id ≡ false

  pub Evolves-OnlyAt :
      (ep : String) (id : ℕ) (m n : Manager S)
      → Evolves S m n
      → id < m.next_id
      → OnlyAt ep id m
      → OnlyAt ep id n
  Evolves-OnlyAt ep id m n ev l only name entry h i = elim (ev.origin name entry h) [
    | inl (old, (g, j)) ↦ only name old g (j ∙ i)
    | inr (lo, hi) ↦ ground arith
  ]

  pub Evolves-IsGone :
      (id : ℕ) (m n : Manager S) → Evolves S m n → id < m.next_id → IsGone id m → IsGone id n
  Evolves-IsGone id m n ev l gone name entry h = elim (ev.origin name entry h) [
    | inl (old, (g, j)) ↦ ground (arith, gone name old g)
    | inr (lo, hi) ↦ ground arith
  ]

  pub lock-same :
      (id : ℕ) (db : Dict (EndpointEntry S)) (name : String) (entry : EndpointEntry S)
      → Handles.lock S id db ≡ some (name, entry)
      → same entry.id id ≡ true
  unfolding Handles.lock
  lock-same id [] name entry e = cc
  lock-same id ((n, first) ∷ db) name entry e = ground (arith, lock-same id db name entry)

  -- A handle on an object that is gone locks nothing.
  pub IsGone-lock :
      (id : ℕ) (m : Manager S)
      → NodupKeys m.endpoint_db
      → IsGone id m
      → Handles.lock S id m.endpoint_db ≡ none
  IsGone-lock id m u gone = elim (Option-cases (Handles.lock S id m.endpoint_db)) [
    | inl e ↦ e
    | inr ((name, entry), e) ↦ ground (
      arith,
      gone name entry (lock-lookup S id m.endpoint_db name entry u e),
      lock-same id m.endpoint_db name entry e,
    )
  ]

  -- A call that makes no endpoint.
  fixed-IsIdentified :
      (m n : Manager S) → Evolves S m n → n.next_id ≡ m.next_id → IsIdentified m → IsIdentified n
  fixed-IsIdentified m n ev f v = record {
    distinct = ev.distinct;
    older = Evolves-older m n ev v;
    single = λ j k a b h g i. elim (ev.origin j a h) [
      | inl (a', (h', p)) ↦ elim (ev.origin k b g) [
        | inl (b', (g', q)) ↦ v.single j k a' b' h' g' (p ∙ i ∙ sym q)
        | inr (lo, hi) ↦ ground arith
      ]
      | inr (lo, hi) ↦ ground arith
    ];
  }

  add-IsIdentified :
      (m : Manager S) (reg : Registries S) (name : String)
      → IsIdentified m
      → IsIdentified (add_mavlink_endpoint S reg name m).0
  unfolding add_mavlink_endpoint
  add-IsIdentified m reg name v = elim (Option-cases (lookup name m.endpoint_db)) [
    | inl e ↦
        rw (e, add_mavlink_endpoint)
          (record {
            distinct = emplace-NodupKeys name _ m.endpoint_db v.distinct;
            older = λ j a h. ground (arith, added j a h, v.older j a);
            single = λ j k a b h g i.
                ground
                  (arith, added j a h, added k b g, v.older j a, v.older k b, v.single j k a b);
          })
    | inr (entry, e) ↦ rw (e, add_mavlink_endpoint) v
  ]
    where
      made : EndpointEntry S
      made = record {
        id = m.next_id;
        endpoint = S.create_endpoint reg.transport_registry;
        user_count = [];
      }

      added :
          (j : String) (a : EndpointEntry S)
          → lookup j (Dict.emplace name made m.endpoint_db) ≡ some a
          → ((name ≡ j) × (a.id ≡ m.next_id)) ⊎ (lookup j m.endpoint_db ≡ some a)
      added j a h = ground (arith, eq_iff name j, lookup-emplace name j made m.endpoint_db)

  pub Call-IsIdentified : (m n : Manager S) → Call S m n → IsIdentified m → IsIdentified n
  unfolding create_mavlink_endpoint_user remove_mavlink_endpoint_user connect_mavlink_endpoint
      disconnect_mavlink_endpoint remove_mavlink_endpoint Handles.destroy_user
      Handles.create_listener Handles.write_message
  Call-IsIdentified m n (adds _ reg name) v = add-IsIdentified m reg name v
  Call-IsIdentified m n (creates _ ep r) v =
      fixed-IsIdentified m n (Call-Evolves m n (creates m ep r) v.distinct) (ground arith) v
  Call-IsIdentified m n (releases _ h) v =
      fixed-IsIdentified m n (Call-Evolves m n (releases m h) v.distinct) (ground arith) v
  Call-IsIdentified m n (listens _ h listener) v =
      fixed-IsIdentified m n (Call-Evolves m n (listens m h listener) v.distinct) (ground arith) v
  Call-IsIdentified m n (writes _ h msg) v =
      fixed-IsIdentified m n (Call-Evolves m n (writes m h msg) v.distinct) (ground arith) v
  Call-IsIdentified m n (removes _ name) v =
      fixed-IsIdentified m n (Call-Evolves m n (removes m name) v.distinct) (ground arith) v
  Call-IsIdentified m n (connects _ name type config) v =
      fixed-IsIdentified m n (Call-Evolves m n (connects m name type config) v.distinct)
        (ground arith) v
  Call-IsIdentified m n (disconnects _ name) v =
      fixed-IsIdentified m n (Call-Evolves m n (disconnects m name) v.distinct) (ground arith) v
  Call-IsIdentified m n (agents_change _ agents) v =
      fixed-IsIdentified m n (Call-Evolves m n (agents_change m agents) v.distinct) (ground arith) v
