-- ===== src/Manager/Preserved.antt =====
-- Every history on src/manager/Manager.cpp keeps the counters equal to the live handles.
use mavlink_hub.Base.{String, ◌≡◌, ◌==◌, eq_iff, [], arith, inl, inr, Bool-cases, Option-cases}
use mavlink_hub.Base.Count.{ℤ}
use mavlink_hub.Base.Dict.{
  Dict, NodupKeys, lookup, lookup-nil, lookup-emplace, lookup-erase, insert-NodupKeys,
  erase-NodupKeys, emplace-NodupKeys,
}
use mavlink_hub.Sdk.{Sdk, MavlinkEndpointUser}
use mavlink_hub.Manager.State.{Manager, EndpointEntry, Registries}
use mavlink_hub.Manager.Users.{create_mavlink_endpoint_user, remove_mavlink_endpoint_user}
use mavlink_hub.Manager.Handles
use mavlink_hub.Manager.Endpoints.{
  add_mavlink_endpoint, remove_mavlink_endpoint, connect_mavlink_endpoint,
  disconnect_mavlink_endpoint,
}
use mavlink_hub.Manager.Counts.{uses}
use mavlink_hub.Manager.Handled.{Tracks-create, Tracks-release}
use mavlink_hub.Manager.History.{
  World, IsCounted, Step, creates, releases, listens, writes, adds, removes, connects, disconnects,
  agents_change, Reach, here, next, set_endpoint-IsCounted, lock-lookup,
}

module _ {S : Sdk} where
  create-distinct :
      (ep r : String) (m : Manager S)
      → NodupKeys m.endpoint_db
      → NodupKeys (create_mavlink_endpoint_user S ep r m).0.endpoint_db
  unfolding create_mavlink_endpoint_user
  create-distinct ep r m u = elim (Option-cases (lookup ep m.endpoint_db)) [
    | inl e ↦ rw (e, create_mavlink_endpoint_user) u
    | inr (entry, e) ↦ rw (e, create_mavlink_endpoint_user) (insert-NodupKeys ep _ m.endpoint_db u)
  ]

  remove-distinct :
      (ep r : String) (m : Manager S)
      → NodupKeys m.endpoint_db
      → NodupKeys (remove_mavlink_endpoint_user S ep r m).0.endpoint_db
  unfolding remove_mavlink_endpoint_user
  remove-distinct ep r m u = elim (Option-cases (lookup ep m.endpoint_db)) [
    | inl e ↦ rw (e, remove_mavlink_endpoint_user) u
    | inr (entry, e) ↦ rw (e, remove_mavlink_endpoint_user) (insert-NodupKeys ep _ m.endpoint_db u)
  ]

  listens-IsCounted :
      (w : World S) (h : MavlinkEndpointUser) (listener : S.Listener)
      → IsCounted w
      → IsCounted (record w { manager = (Handles.create_listener S h listener w.manager).0 })
  unfolding Handles.create_listener
  listens-IsCounted w h listener c =
      elim (Option-cases (Handles.lock S h.endpoint w.manager.endpoint_db)) [
        | inl e ↦ rw (e, Handles.create_listener) c
        | inr ((name, entry), e) ↦
            rw (e, Handles.create_listener)
              (set_endpoint-IsCounted S name entry _ w
                (lock-lookup S h.endpoint w.manager.endpoint_db name entry c.distinct e) c)
      ]

  writes-IsCounted :
      (w : World S) (h : MavlinkEndpointUser) (msg : S.Message)
      → IsCounted w
      → IsCounted (record w { manager = (Handles.write_message S h msg w.manager).0 })
  unfolding Handles.write_message
  writes-IsCounted w h msg c =
      elim (Option-cases (Handles.lock S h.endpoint w.manager.endpoint_db)) [
        | inl e ↦ rw (e, Handles.write_message) c
        | inr ((name, entry), e) ↦
            rw (e, Handles.write_message)
              (set_endpoint-IsCounted S name entry _ w
                (lock-lookup S h.endpoint w.manager.endpoint_db name entry c.distinct e) c)
      ]

  connects-IsCounted :
      (w : World S) (name type : String) (config : Dict String)
      → IsCounted w
      → IsCounted (record w { manager = (connect_mavlink_endpoint S name type config w.manager).0 })
  unfolding connect_mavlink_endpoint
  connects-IsCounted w name type config c =
      elim (Option-cases (lookup name w.manager.endpoint_db)) [
        | inl e ↦ rw (e, connect_mavlink_endpoint) c
        | inr (entry, e) ↦
            rw (e, connect_mavlink_endpoint) (set_endpoint-IsCounted S name entry _ w e c)
      ]

  disconnects-IsCounted :
      (w : World S) (name : String)
      → IsCounted w
      → IsCounted (record w { manager = (disconnect_mavlink_endpoint S name w.manager).0 })
  unfolding disconnect_mavlink_endpoint
  disconnects-IsCounted w name c = elim (Option-cases (lookup name w.manager.endpoint_db)) [
    | inl e ↦ rw (e, disconnect_mavlink_endpoint) c
    | inr (entry, e) ↦
        rw (e, disconnect_mavlink_endpoint) (set_endpoint-IsCounted S name entry _ w e c)
  ]

  removes-IsCounted :
      (w : World S) (name : String)
      → IsCounted w
      → IsCounted (record w { manager = (remove_mavlink_endpoint S name w.manager).0 })
  unfolding remove_mavlink_endpoint
  removes-IsCounted w name c = elim (Option-cases (lookup name w.manager.endpoint_db)) [
    | inl e ↦ rw (e, remove_mavlink_endpoint) c
    | inr (entry, e) ↦
        rw (e, remove_mavlink_endpoint)
          (record {
            distinct = erase-NodupKeys name w.manager.endpoint_db c.distinct;
            tracks = λ ep user e' h.
                c.tracks ep user e' (ground (arith, lookup-erase name ep w.manager.endpoint_db));
          })
  ]

  abbrev created : Registries S → Manager S → EndpointEntry S
  created reg m = record {
    id = m.next_id;
    endpoint = S.create_endpoint reg.transport_registry;
    user_count = [];
  }

  adds-IsCounted :
      (w : World S) (reg : Registries S) (name : String)
      → ((user : String) → uses name user w.live ≡ 0)
      → IsCounted w
      → IsCounted (record w { manager = (add_mavlink_endpoint S reg name w.manager).0 })
  unfolding add_mavlink_endpoint
  adds-IsCounted w reg name free c = elim (Option-cases (lookup name w.manager.endpoint_db)) [
    | inr (entry, e) ↦ rw (e, add_mavlink_endpoint) c
    | inl e ↦
        rw (e, add_mavlink_endpoint)
          (record {
            distinct = emplace-NodupKeys name _ w.manager.endpoint_db c.distinct;
            tracks = λ ep user e' h. elim (Bool-cases (name == ep)) [
              | inl hit ↦ ground (
                arith,
                eq_iff name ep,
                lookup-emplace name ep (created reg w.manager) w.manager.endpoint_db,
                lookup-nil {V = ℤ} user,
                free user,
              )
              | inr miss ↦ c.tracks ep user e' (
                  ground
                    (arith, lookup-emplace name ep (created reg w.manager) w.manager.endpoint_db))
            ];
          })
  ]

  pub Step-IsCounted : {v w : World S} → Step S v w → IsCounted v → IsCounted w
  unfolding Handles.destroy_user
  Step-IsCounted (creates w ep r) c = record {
    distinct = create-distinct ep r w.manager c.distinct;
    tracks = Tracks-create S ep r w.manager w.live c.tracks;
  }
  Step-IsCounted (releases m xs ys h) c = record {
    distinct = remove-distinct h.endpoint_name h.user_name m c.distinct;
    tracks = Tracks-release S xs ys h m c.tracks;
  }
  Step-IsCounted (listens w h listener) c = listens-IsCounted w h listener c
  Step-IsCounted (writes w h msg) c = writes-IsCounted w h msg c
  Step-IsCounted (adds w reg name free) c = adds-IsCounted w reg name free c
  Step-IsCounted (removes w name) c = removes-IsCounted w name c
  Step-IsCounted (connects w name type config) c = connects-IsCounted w name type config c
  Step-IsCounted (disconnects w name) c = disconnects-IsCounted w name c
  Step-IsCounted (agents_change w agents) c = record { distinct = c.distinct; tracks = c.tracks }

  -- A history of calls keeps the counts exact: each endpoint counts, for each requester, its live
  -- handles. In the history an endpoint is added only under a name that no live handle carries, and
  -- only a live handle is released.
  pub Reach-IsCounted : {v w : World S} → Reach S v w → IsCounted v → IsCounted w
  Reach-IsCounted here c = c
  Reach-IsCounted (next r s) c = Step-IsCounted s (Reach-IsCounted r c)
