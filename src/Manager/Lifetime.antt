-- ===== src/Manager/Lifetime.antt =====
-- How long a handle of src/manager/mavlink_endpoint_user/MavlinkEndpointUser.cpp reaches its endpoint.
use mavlink_hub.Base.{
  ◌<◌, String, ◌≡◌, sym, ◌∙◌, eq_iff, some, none, arith, ◌⊎◌, inl, inr, Option-cases,
}
use mavlink_hub.Base.Dict.{NodupKeys, lookup, lookup-erase, lookup-nil}
use mavlink_hub.Sdk.{Sdk, MavlinkEndpointUser}
use mavlink_hub.Manager.State.{Manager, EndpointEntry, empty_manager}
use mavlink_hub.Manager.Users.{create_mavlink_endpoint_user}
use mavlink_hub.Manager.Handles
use mavlink_hub.Manager.Endpoints.{remove_mavlink_endpoint}
use mavlink_hub.Manager.Calls.{creates, removes, Calls, here, next, Evolves}
use mavlink_hub.Manager.Evolution.{Call-Evolves, Calls-Evolves}
use mavlink_hub.Manager.Identity.{
  IsIdentified, OnlyAt, IsGone, Evolves-OnlyAt, Evolves-IsGone, IsGone-lock, Call-IsIdentified,
  lock-same,
}
use mavlink_hub.Manager.History.{lock-lookup}

module _ (S : Sdk) where
  empty-IsIdentified : IsIdentified S (empty_manager S)
  empty-IsIdentified = record {
    distinct = tt;
    older = λ name entry e. ground (arith, lookup-nil {V = EndpointEntry S} name);
    single = λ j k a b e. ground (arith, lookup-nil {V = EndpointEntry S} j);
  }

  pub Calls-IsIdentified : (m : Manager S) → Calls S (empty_manager S) m → IsIdentified S m
  Calls-IsIdentified m here = empty-IsIdentified
  Calls-IsIdentified m (next {n = k} calls call) =
      Call-IsIdentified S k m call (Calls-IsIdentified k calls)

  -- The object of the new handle is that of the endpoint, and of no other.
  record IsBound (ep : String) (h : MavlinkEndpointUser) (m : Manager S) : Type 0 where
    distinct : NodupKeys m.endpoint_db
    older : h.endpoint < m.next_id
    only : OnlyAt S ep h.endpoint m

  pub created-entry :
      (ep r : String) (m : Manager S) (h : MavlinkEndpointUser)
      → (create_mavlink_endpoint_user S ep r m).1 ≡ some h
      → (entry : EndpointEntry S) × ((lookup ep m.endpoint_db ≡ some entry)
          × (entry.id ≡ h.endpoint))
  unfolding create_mavlink_endpoint_user
  created-entry ep r m h e = elim (Option-cases (lookup ep m.endpoint_db)) [
    | inl none_there ↦ ground (arith, none_there)
    | inr (entry, there) ↦ (entry, (there, ground (arith, there)))
  ]

  Evolves-IsBound :
      (ep : String) (h : MavlinkEndpointUser) (m n : Manager S)
      → Evolves S m n
      → IsBound ep h m
      → IsBound ep h n
  Evolves-IsBound ep h m n ev b = record {
    distinct = ev.distinct;
    older = ground (arith, b.older, ev.newer);
    only = Evolves-OnlyAt S ep h.endpoint m n ev b.older b.only;
  }

  found-IsBound :
      (ep : String) (h : MavlinkEndpointUser) (m : Manager S) (entry : EndpointEntry S)
      → IsIdentified S m
      → lookup ep m.endpoint_db ≡ some entry
      → entry.id ≡ h.endpoint
      → IsBound ep h m
  found-IsBound ep h m entry v e i = record {
    distinct = v.distinct;
    older = ground (arith, v.older ep entry e);
    only = λ name other g j. v.single name ep other entry g e (j ∙ sym i);
  }

  used-IsBound :
      (ep r : String) (h : MavlinkEndpointUser) (m n : Manager S)
      → Calls S (empty_manager S) m
      → (create_mavlink_endpoint_user S ep r m).1 ≡ some h
      → Calls S (create_mavlink_endpoint_user S ep r m).0 n
      → IsBound ep h n
  used-IsBound ep r h m n before e after =
      let v = Calls-IsIdentified m before in
      let made = created-entry ep r m h e in
      let m' = (create_mavlink_endpoint_user S ep r m).0 in
      let created = Call-Evolves m m' (creates m ep r) v.distinct in
      Evolves-IsBound ep h m' n (Calls-Evolves m' n after created.distinct)
        (Evolves-IsBound ep h m m' created (found-IsBound ep h m made.0 v made.1.0 made.1.1))

  -- Whatever calls were made before and after a handle was created on the endpoint `ep`, the handle
  -- reaches nothing, or the endpoint that stands under the name `ep`: never another one.
  pub handle_reaches_own :
      (ep r : String) (h : MavlinkEndpointUser) (m n : Manager S)
      → Calls S (empty_manager S) m
      → (create_mavlink_endpoint_user S ep r m).1 ≡ some h
      → Calls S (create_mavlink_endpoint_user S ep r m).0 n
      → (Handles.lock S h.endpoint n.endpoint_db ≡ none)
        ⊎ ((entry : EndpointEntry S) × ((Handles.lock S h.endpoint n.endpoint_db ≡ some (ep, entry))
              × (lookup ep n.endpoint_db ≡ some entry)))
  handle_reaches_own ep r h m n before e after =
      let b = used-IsBound ep r h m n before e after in
      elim (Option-cases (Handles.lock S h.endpoint n.endpoint_db)) [
        | inl free ↦ inl free
        | inr ((name, entry), l) ↦
            let there = lock-lookup S h.endpoint n.endpoint_db name entry b.distinct l in
            let same_object = lock-same S h.endpoint n.endpoint_db name entry l in
            let own = b.only name entry there (ground arith) in
            inr (entry, (rw (sym own) l, rw (sym own) there))
      ]

  removed-IsGone :
      (ep : String) (h : MavlinkEndpointUser) (m : Manager S)
      → IsBound ep h m
      → IsGone S h.endpoint (remove_mavlink_endpoint S ep m).0
  unfolding remove_mavlink_endpoint
  removed-IsGone ep h m b name entry e =
      ground (arith, lookup-erase ep name m.endpoint_db, eq_iff ep name, b.only name entry)

  expired :
      (h : MavlinkEndpointUser) (n : Manager S)
      → Handles.lock S h.endpoint n.endpoint_db ≡ none
      → (Handles.get_state S h n ≡ none)
        × ((Handles.get_num_of_listener S h n ≡ none)
            × (((listener : S.Listener) → Handles.create_listener S h listener n ≡ (n, none))
                × ((msg : S.Message) → Handles.write_message S h msg n ≡ (n, none))))
  unfolding Handles.get_state Handles.get_num_of_listener Handles.create_listener
      Handles.write_message
  expired h n e = ground (arith, e)

  -- Once the endpoint of a handle has been removed, the handle is dead for good, whatever calls were
  -- made before, between and after, an endpoint added under the same name included: its queries
  -- return nothing, and its other calls return nothing and leave the manager as it is.
  pub handle_expires :
      (ep r : String) (h : MavlinkEndpointUser) (m n k : Manager S)
      → Calls S (empty_manager S) m
      → (create_mavlink_endpoint_user S ep r m).1 ≡ some h
      → Calls S (create_mavlink_endpoint_user S ep r m).0 n
      → Calls S (remove_mavlink_endpoint S ep n).0 k
      → (Handles.get_state S h k ≡ none)
        × ((Handles.get_num_of_listener S h k ≡ none)
            × (((listener : S.Listener) → Handles.create_listener S h listener k ≡ (k, none))
                × ((msg : S.Message) → Handles.write_message S h msg k ≡ (k, none))))
  handle_expires ep r h m n k before e between after =
      let b = used-IsBound ep r h m n before e between in
      let n' = (remove_mavlink_endpoint S ep n).0 in
      let removed = Call-Evolves n n' (removes n ep) b.distinct in
      let later = Calls-Evolves n' k after removed.distinct in
      expired h k (
        IsGone-lock S h.endpoint k later.distinct (
          Evolves-IsGone S h.endpoint n' k later (Evolves-IsBound ep h n n' removed b).older
            (removed-IsGone ep h n b)))
