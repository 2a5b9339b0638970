-- ===== src/Manager/Evolution.antt =====
-- The identities of the endpoints of src/manager/Manager.cpp, over any calls on the manager and on
-- the handles.
use mavlink_hub.Base.{String, refl, ◌==◌, eq_iff, [], arith, inl, inr, Bool-cases, Option-cases}
use mavlink_hub.Base.Dict.{
  Dict, NodupKeys, lookup, lookup-erase, lookup-emplace, erase-NodupKeys, emplace-NodupKeys,
}
use mavlink_hub.Sdk.{Sdk, MavlinkEndpointUser}
use mavlink_hub.Manager.State.{Manager, EndpointEntry, Registries}
use mavlink_hub.Manager.Users.{create_mavlink_endpoint_user, remove_mavlink_endpoint_user}
use mavlink_hub.Manager.Handles
use mavlink_hub.Manager.Endpoints.{
  add_mavlink_endpoint, remove_mavlink_endpoint, connect_mavlink_endpoint,
  disconnect_mavlink_endpoint,
}
use mavlink_hub.Manager.History.{lock-lookup}
use mavlink_hub.Manager.Calls.{
  Call, creates, releases, listens, writes, adds, removes, connects, disconnects, agents_change,
  Calls, here, next, Evolves, Evolves-refl, Evolves-trans, insert-Evolves,
}

module _ {S : Sdk} where
  create-Evolves :
      (m : Manager S) (ep r : String)
      → NodupKeys m.endpoint_db
      → Evolves S m (create_mavlink_endpoint_user S ep r m).0
  unfolding create_mavlink_endpoint_user
  create-Evolves m ep r u = elim (Option-cases (lookup ep m.endpoint_db)) [
    | inl e ↦ rw (e, create_mavlink_endpoint_user) (Evolves-refl S m u)
    | inr (entry, e) ↦ rw (e, create_mavlink_endpoint_user) (insert-Evolves S ep entry _ m u e refl)
  ]

  release-Evolves :
      (m : Manager S) (h : MavlinkEndpointUser)
      → NodupKeys m.endpoint_db
      → Evolves S m (Handles.destroy_user S h m)
  unfolding remove_mavlink_endpoint_user Handles.destroy_user
  release-Evolves m h u = elim (Option-cases (lookup h.endpoint_name m.endpoint_db)) [
    | inl e ↦ rw (e, Handles.destroy_user, remove_mavlink_endpoint_user) (Evolves-refl S m u)
    | inr (entry, e) ↦
        rw (e, Handles.destroy_user, remove_mavlink_endpoint_user)
          (insert-Evolves S h.endpoint_name entry _ m u e refl)
  ]

  listen-Evolves :
      (m : Manager S) (h : MavlinkEndpointUser) (listener : S.Listener)
      → NodupKeys m.endpoint_db
      → Evolves S m (Handles.create_listener S h listener m).0
  unfolding Handles.create_listener
  listen-Evolves m h listener u = elim (Option-cases (Handles.lock S h.endpoint m.endpoint_db)) [
    | inl e ↦ rw (e, Handles.create_listener) (Evolves-refl S m u)
    | inr ((name, entry), e) ↦
        rw (e, Handles.create_listener)
          (insert-Evolves S name entry _ m u (lock-lookup S h.endpoint m.endpoint_db name entry u e)
            refl)
  ]

  write-Evolves :
      (m : Manager S) (h : MavlinkEndpointUser) (msg : S.Message)
      → NodupKeys m.endpoint_db
      → Evolves S m (Handles.write_message S h msg m).0
  unfolding Handles.write_message
  write-Evolves m h msg u = elim (Option-cases (Handles.lock S h.endpoint m.endpoint_db)) [
    | inl e ↦ rw (e, Handles.write_message) (Evolves-refl S m u)
    | inr ((name, entry), e) ↦
        rw (e, Handles.write_message)
          (insert-Evolves S name entry _ m u (lock-lookup S h.endpoint m.endpoint_db name entry u e)
            refl)
  ]

  connect-Evolves :
      (m : Manager S) (name type : String) (config : Dict String)
      → NodupKeys m.endpoint_db
      → Evolves S m (connect_mavlink_endpoint S name type config m).0
  unfolding connect_mavlink_endpoint
  connect-Evolves m name type config u = elim (Option-cases (lookup name m.endpoint_db)) [
    | inl e ↦ rw (e, connect_mavlink_endpoint) (Evolves-refl S m u)
    | inr (entry, e) ↦ rw (e, connect_mavlink_endpoint) (insert-Evolves S name entry _ m u e refl)
  ]

  disconnect-Evolves :
      (m : Manager S) (name : String)
      → NodupKeys m.endpoint_db
      → Evolves S m (disconnect_mavlink_endpoint S name m).0
  unfolding disconnect_mavlink_endpoint
  disconnect-Evolves m name u = elim (Option-cases (lookup name m.endpoint_db)) [
    | inl e ↦ rw (e, disconnect_mavlink_endpoint) (Evolves-refl S m u)
    | inr (entry, e) ↦
        rw (e, disconnect_mavlink_endpoint) (insert-Evolves S name entry _ m u e refl)
  ]

  abbrev pub made : Manager S → Registries S → EndpointEntry S
  made m reg = record {
    id = m.next_id;
    endpoint = S.create_endpoint reg.transport_registry;
    user_count = [];
  }

  add-Evolves :
      (m : Manager S) (reg : Registries S) (name : String)
      → NodupKeys m.endpoint_db
      → Evolves S m (add_mavlink_endpoint S reg name m).0
  unfolding add_mavlink_endpoint
  add-Evolves m reg name u = elim (Option-cases (lookup name m.endpoint_db)) [
    | inl e ↦
        rw (e, add_mavlink_endpoint)
          (record {
            newer = omega arith;
            distinct = emplace-NodupKeys name _ m.endpoint_db u;
            origin = λ j now h. elim (Bool-cases (name == j)) [
              | inl hit ↦
                  inr (
                    ground (arith, eq_iff name j, lookup-emplace name j (made m reg) m.endpoint_db))
              | inr miss ↦
                  inl (now, ground (arith, lookup-emplace name j (made m reg) m.endpoint_db))
            ];
          })
    | inr (entry, e) ↦ rw (e, add_mavlink_endpoint) (Evolves-refl S m u)
  ]

  remove-Evolves :
      (m : Manager S) (name : String)
      → NodupKeys m.endpoint_db
      → Evolves S m (remove_mavlink_endpoint S name m).0
  unfolding remove_mavlink_endpoint
  remove-Evolves m name u = elim (Option-cases (lookup name m.endpoint_db)) [
    | inl e ↦ rw (e, remove_mavlink_endpoint) (Evolves-refl S m u)
    | inr (entry, e) ↦
        rw (e, remove_mavlink_endpoint)
          (record {
            newer = omega arith;
            distinct = erase-NodupKeys name m.endpoint_db u;
            origin = λ j now h. inl (now, ground (arith, lookup-erase name j m.endpoint_db));
          })
  ]

  pub Call-Evolves : (m n : Manager S) → Call S m n → NodupKeys m.endpoint_db → Evolves S m n
  Call-Evolves m n (creates _ ep r) u = create-Evolves m ep r u
  Call-Evolves m n (releases _ h) u = release-Evolves m h u
  Call-Evolves m n (listens _ h listener) u = listen-Evolves m h listener u
  Call-Evolves m n (writes _ h msg) u = write-Evolves m h msg u
  Call-Evolves m n (adds _ reg name) u = add-Evolves m reg name u
  Call-Evolves m n (removes _ name) u = remove-Evolves m name u
  Call-Evolves m n (connects _ name type config) u = connect-Evolves m name type config u
  Call-Evolves m n (disconnects _ name) u = disconnect-Evolves m name u
  Call-Evolves m n (agents_change _ agents) u = record {
    newer = omega arith;
    distinct = u;
    origin = λ name entry h. inl (entry, (h, refl));
  }

  pub Calls-Evolves : (m n : Manager S) → Calls S m n → NodupKeys m.endpoint_db → Evolves S m n
  Calls-Evolves m n here u = Evolves-refl S m u
  Calls-Evolves m n (next {n = k} calls call) u =
      let before = Calls-Evolves m k calls u in
      Evolves-trans S m k n before (Call-Evolves k n call before.distinct)
