-- ===== src/Manager/Grows.antt =====
-- Sequences of calls on src/manager/Manager.cpp that remove no endpoint and no agent.
use mavlink_hub.Base.{
  String, ◌≡◌, refl, ◌∙◌, ◌==◌, eq_iff, true, some, arith, inl, inr, Bool-cases, Option-cases,
}
use mavlink_hub.Base.Dict
use mavlink_hub.Base.Dict.{
  Dict, NodupKeys, lookup, lookup-insert, lookup-insert_self, lookup-emplace,
}
use mavlink_hub.Sdk.{Sdk, MavlinkEndpointUser}
use mavlink_hub.Manager.State.{Manager, EndpointEntry, Registries}
use mavlink_hub.Manager.Frame.{has}
use mavlink_hub.Manager.Users.{create_mavlink_endpoint_user, remove_mavlink_endpoint_user}
use mavlink_hub.Manager.Handles
use mavlink_hub.Manager.Endpoints.{
  add_mavlink_endpoint, connect_mavlink_endpoint, disconnect_mavlink_endpoint,
}
use mavlink_hub.Manager.Calls.{
  Call, creates, releases, listens, writes, adds, removes, connects, disconnects, agents_change,
  Calls, here, next,
}
use mavlink_hub.Manager.Evolution.{Calls-Evolves, made}
use mavlink_hub.Manager.History.{lock-lookup}

module _ (S : Sdk) where
  -- The call removes no endpoint and no agent.
  abbrev pub IsAdditive : {m n : Manager S} → Call S m n → Type 0
  IsAdditive (removes m name) = ⊥
  IsAdditive (agents_change m agents) = (k : String) → has k m.agents ≡ true → has k agents ≡ true
  IsAdditive call = Unit {0}

  -- Any number of such calls.
  pub data Grows (m : Manager S) : Manager S → Type 0 where
    grown : Grows m m
    grow : {n n' : Manager S} → Grows m n → (call : Call S n n') → IsAdditive call → Grows m n'

  -- What is registered stays, an endpoint with its object.
  pub record Keeps (m n : Manager S) : Type 0 where
    pub endpoints :
        (name : String) (entry : EndpointEntry S)
        → lookup name m.endpoint_db ≡ some entry
        → (now : EndpointEntry S) × ((lookup name n.endpoint_db ≡ some now) × (now.id ≡ entry.id))
    pub agents : (k : String) → has k m.agents ≡ true → has k n.agents ≡ true

  pub Keeps-refl : (m : Manager S) → Keeps m m
  Keeps-refl m = record { endpoints = λ name entry e. (entry, (e, refl)); agents = λ k h. h }

  Keeps-trans : (m n k : Manager S) → Keeps m n → Keeps n k → Keeps m k
  Keeps-trans m n k a b = record {
    endpoints = λ name entry e.
        let mid = a.endpoints name entry e in
        let last = b.endpoints name mid.0 mid.1.0 in (last.0, (last.1.0, last.1.1 ∙ mid.1.1));
    agents = λ j h. b.agents j (a.agents j h);
  }

  -- The entry of a name is replaced by one of the same object.
  insert-Keeps :
      (name : String) (old entry : EndpointEntry S) (m : Manager S)
      → lookup name m.endpoint_db ≡ some old
      → old.id ≡ entry.id
      → Keeps m (record m { endpoint_db = Dict.insert name entry m.endpoint_db })
  insert-Keeps name old entry m e i = record {
    endpoints = λ j was h. elim (Bool-cases (name == j)) [
      | inl hit ↦ (entry, ground (arith, eq_iff name j, lookup-insert name j entry m.endpoint_db))
      | inr miss ↦ (was, ground (arith, lookup-insert name j entry m.endpoint_db))
    ];
    agents = λ k h. h;
  }

  create-Keeps : (m : Manager S) (ep r : String) → Keeps m (create_mavlink_endpoint_user S ep r m).0
  unfolding create_mavlink_endpoint_user
  create-Keeps m ep r = elim (Option-cases (lookup ep m.endpoint_db)) [
    | inl e ↦ rw (e, create_mavlink_endpoint_user) (Keeps-refl m)
    | inr (entry, e) ↦ rw (e, create_mavlink_endpoint_user) (insert-Keeps ep entry _ m e refl)
  ]

  release-Keeps : (m : Manager S) (h : MavlinkEndpointUser) → Keeps m (Handles.destroy_user S h m)
  unfolding remove_mavlink_endpoint_user Handles.destroy_user
  release-Keeps m h = elim (Option-cases (lookup h.endpoint_name m.endpoint_db)) [
    | inl e ↦ rw (e, Handles.destroy_user, remove_mavlink_endpoint_user) (Keeps-refl m)
    | inr (entry, e) ↦
        rw (e, Handles.destroy_user, remove_mavlink_endpoint_user)
          (insert-Keeps h.endpoint_name entry _ m e refl)
  ]

  listen-Keeps :
      (m : Manager S) (h : MavlinkEndpointUser) (listener : S.Listener)
      → NodupKeys m.endpoint_db
      → Keeps m (Handles.create_listener S h listener m).0
  unfolding Handles.create_listener
  listen-Keeps m h listener u = elim (Option-cases (Handles.lock S h.endpoint m.endpoint_db)) [
    | inl e ↦ rw (e, Handles.create_listener) (Keeps-refl m)
    | inr ((name, entry), e) ↦
        rw (e, Handles.create_listener)
          (insert-Keeps name entry _ m (lock-lookup S h.endpoint m.endpoint_db name entry u e) refl)
  ]

  write-Keeps :
      (m : Manager S) (h : MavlinkEndpointUser) (msg : S.Message)
      → NodupKeys m.endpoint_db
      → Keeps m (Handles.write_message S h msg m).0
  unfolding Handles.write_message
  write-Keeps m h msg u = elim (Option-cases (Handles.lock S h.endpoint m.endpoint_db)) [
    | inl e ↦ rw (e, Handles.write_message) (Keeps-refl m)
    | inr ((name, entry), e) ↦
        rw (e, Handles.write_message)
          (insert-Keeps name entry _ m (lock-lookup S h.endpoint m.endpoint_db name entry u e) refl)
  ]

  connect-Keeps :
      (m : Manager S) (name type : String) (config : Dict String)
      → Keeps m (connect_mavlink_endpoint S name type config m).0
  unfolding connect_mavlink_endpoint
  connect-Keeps m name type config = elim (Option-cases (lookup name m.endpoint_db)) [
    | inl e ↦ rw (e, connect_mavlink_endpoint) (Keeps-refl m)
    | inr (entry, e) ↦ rw (e, connect_mavlink_endpoint) (insert-Keeps name entry _ m e refl)
  ]

  disconnect-Keeps :
      (m : Manager S) (name : String) → Keeps m (disconnect_mavlink_endpoint S name m).0
  unfolding disconnect_mavlink_endpoint
  disconnect-Keeps m name = elim (Option-cases (lookup name m.endpoint_db)) [
    | inl e ↦ rw (e, disconnect_mavlink_endpoint) (Keeps-refl m)
    | inr (entry, e) ↦ rw (e, disconnect_mavlink_endpoint) (insert-Keeps name entry _ m e refl)
  ]

  add-Keeps :
      (m : Manager S) (reg : Registries S) (name : String)
      → Keeps m (add_mavlink_endpoint S reg name m).0
  unfolding add_mavlink_endpoint
  add-Keeps m reg name = elim (Option-cases (lookup name m.endpoint_db)) [
    | inl e ↦
        rw (e, add_mavlink_endpoint)
          (record {
            endpoints = λ j was h. (
              was,
              (
                ground (arith, eq_iff name j, lookup-emplace name j (made m reg) m.endpoint_db),
                refl,
              ),
            );
            agents = λ k h. h;
          })
    | inr (entry, e) ↦ rw (e, add_mavlink_endpoint) (Keeps-refl m)
  ]

  Call-Keeps :
      (m n : Manager S) (call : Call S m n) → IsAdditive call → NodupKeys m.endpoint_db → Keeps m n
  Call-Keeps m n (creates _ ep r) a u = create-Keeps m ep r
  Call-Keeps m n (releases _ h) a u = release-Keeps m h
  Call-Keeps m n (listens _ h listener) a u = listen-Keeps m h listener u
  Call-Keeps m n (writes _ h msg) a u = write-Keeps m h msg u
  Call-Keeps m n (adds _ reg name) a u = add-Keeps m reg name
  Call-Keeps m n (removes _ name) a u = absurd a
  Call-Keeps m n (connects _ name type config) a u = connect-Keeps m name type config
  Call-Keeps m n (disconnects _ name) a u = disconnect-Keeps m name
  Call-Keeps m n (agents_change _ agents) a u = record {
    endpoints = λ name entry e. (entry, (e, refl));
    agents = a;
  }

  pub Grows-Calls : (m n : Manager S) → Grows m n → Calls S m n
  Grows-Calls m n grown = here
  Grows-Calls m n (grow {n = k} grows call additive) = next (Grows-Calls m k grows) call

  pub Grows-Keeps : (m n : Manager S) → Grows m n → NodupKeys m.endpoint_db → Keeps m n
  Grows-Keeps m n grown u = Keeps-refl m
  Grows-Keeps m n (grow {n = k} grows call additive) u =
      let distinct = (Calls-Evolves m k (Grows-Calls m k grows) u).distinct in
      Keeps-trans m k n (Grows-Keeps m k grows u) (Call-Keeps k n call additive distinct)
