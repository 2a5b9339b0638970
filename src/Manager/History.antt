-- ===== src/Manager/History.antt =====
-- Histories of calls on src/manager/Manager.cpp, with the handles that are alive. Agents' scripts are
-- sequences of such calls.
use mavlink_hub.Base.{
  ℕ, String, ◌≡◌, ◌==◌, eq_iff, some, List, [], ◌∷◌, ◌++◌, arith, inl, inr, Bool-cases,
}
use mavlink_hub.Base.Dict.{Dict, NodupKeys, lookup, lookup-insert, insert-NodupKeys}
use mavlink_hub.Sdk.{Sdk, MavlinkEndpointUser}
use mavlink_hub.Manager.State.{Manager, EndpointEntry, Registries}
use mavlink_hub.Manager.Users.{create_mavlink_endpoint_user}
use mavlink_hub.Manager.Handles
use mavlink_hub.Manager.Endpoints.{
  add_mavlink_endpoint, remove_mavlink_endpoint, connect_mavlink_endpoint,
  disconnect_mavlink_endpoint, set_endpoint,
}
use mavlink_hub.Manager.Counts.{uses}
use mavlink_hub.Manager.Handled.{Tracks, handles_after}

-- A manager and the handles that are alive.
pub record World (S : Sdk) : Type 0 where
  pub manager : Manager S
  pub live : List MavlinkEndpointUser

-- Names of endpoints are distinct, and every counter is the number of live handles.
pub record IsCounted {S : Sdk} (w : World S) : Type 0 where
  pub distinct : NodupKeys w.manager.endpoint_db
  pub tracks : Tracks S w.manager w.live

abbrev pub after_create : {S : Sdk} → String → String → World S → World S
after_create {S} ep r w =
    let made = create_mavlink_endpoint_user S ep r w.manager in
    record { manager = made.0; live = handles_after S made.1 w.live }

-- An endpoint is added only under a name that no live handle carries.
pub data Step (S : Sdk) : World S → World S → Type 0 where
  creates : (w : World S) (ep r : String) → Step S w (after_create ep r w)
  releases :
      (m : Manager S) (xs ys : List MavlinkEndpointUser) (h : MavlinkEndpointUser)
      → Step S
          (record { manager = m; live = xs ++ h ∷ ys })
          (record { manager = Handles.destroy_user S h m; live = xs ++ ys })
  listens :
      (w : World S) (h : MavlinkEndpointUser) (listener : S.Listener)
      → Step S w (record w { manager = (Handles.create_listener S h listener w.manager).0 })
  writes :
      (w : World S) (h : MavlinkEndpointUser) (msg : S.Message)
      → Step S w (record w { manager = (Handles.write_message S h msg w.manager).0 })
  adds :
      (w : World S) (reg : Registries S) (name : String)
      → ((user : String) → uses name user w.live ≡ 0)
      → Step S w (record w { manager = (add_mavlink_endpoint S reg name w.manager).0 })
  removes :
      (w : World S) (name : String)
      → Step S w (record w { manager = (remove_mavlink_endpoint S name w.manager).0 })
  connects :
      (w : World S) (name type : String) (config : Dict String)
      → Step S w (record w { manager = (connect_mavlink_endpoint S name type config w.manager).0 })
  disconnects :
      (w : World S) (name : String)
      → Step S w (record w { manager = (disconnect_mavlink_endpoint S name w.manager).0 })
  agents_change :
      (w : World S) (agents : Dict S.Agent)
      → Step S w (record w { manager = record (w.manager) { agents = agents } })

pub data Reach (S : Sdk) (w : World S) : World S → Type 0 where
  here : Reach S w w
  next : {u v : World S} → Reach S w u → Step S u v → Reach S w v

module _ (S : Sdk) where
  -- A new value of an endpoint object leaves names and counters alone.
  pub set_endpoint-IsCounted :
      (name : String) (entry : EndpointEntry S) (endpoint : S.Endpoint) (w : World S)
      → lookup name w.manager.endpoint_db ≡ some entry
      → IsCounted w
      → IsCounted (record w { manager = set_endpoint S name entry endpoint w.manager })
  set_endpoint-IsCounted name entry endpoint w e c = record {
    distinct = insert-NodupKeys name _ w.manager.endpoint_db c.distinct;
    tracks = λ ep user e' h. elim (Bool-cases (name == ep)) [
      | inl hit ↦ ground (
        arith,
        eq_iff name ep,
        lookup-insert name ep (record entry { endpoint = endpoint }) w.manager.endpoint_db,
        c.tracks ep user entry,
      )
      | inr miss ↦ c.tracks ep user e' (
          ground (
            arith,
            lookup-insert name ep (record entry { endpoint = endpoint }) w.manager.endpoint_db,
          ))
    ];
  }

  pub lock-lookup :
      (id : ℕ) (db : Dict (EndpointEntry S)) (name : String) (entry : EndpointEntry S)
      → NodupKeys db
      → Handles.lock S id db ≡ some (name, entry)
      → lookup name db ≡ some entry
  unfolding Handles.lock lookup
  lock-lookup id [] name entry u h = cc
  lock-lookup id ((n, e) ∷ db) name entry u h =
      ground (arith, eq_iff n name, lock-lookup id db name entry u.1)
