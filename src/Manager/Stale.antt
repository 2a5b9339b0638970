-- ===== src/Manager/Stale.antt =====
-- A handle that outlives its endpoint, in src/manager/Manager.cpp and MavlinkEndpointUser.cpp: it is
-- released by name, so it takes a reference off another endpoint that has got the name since.
use mavlink_hub.Base.{String, ◌≡◌, refl, ap, ◌∙◌, eq_iff, Option, none, some, [], arith}
use mavlink_hub.Base.Dict
use mavlink_hub.Base.Dict.{
  Dict, lookup, lookup-nil, lookup-insert, lookup-insert_self, lookup-emplace, lookup-erase,
}
use mavlink_hub.Sdk.{Sdk, MavlinkEndpointUser}
use mavlink_hub.Manager.State.{Manager, EndpointEntry, Registries}
use mavlink_hub.Manager.Users.{
  count_up, count_down, create_mavlink_endpoint_user, remove_mavlink_endpoint_user,
  get_mavlink_endpoint_user_list,
}
use mavlink_hub.Manager.Handles.{destroy_user}
use mavlink_hub.Manager.Endpoints.{add_mavlink_endpoint, remove_mavlink_endpoint}

-- One reference taken and given back leaves no entry.
count_down-count_up : (r : String) → count_down r (count_up r []) ≡ []
unfolding count_up count_down lookup Dict.insert Dict.erase
count_down-count_up r = ground (arith, eq_iff r r)

module _ (S : Sdk) (reg : Registries S) where
  -- The endpoint is removed, its name is given to a new one, and a requester gets a handle on it.
  abbrev pub replaced : String → String → Manager S → Manager S × Option MavlinkEndpointUser
  replaced ep r m =
      create_mavlink_endpoint_user S ep r
        (add_mavlink_endpoint S reg ep (remove_mavlink_endpoint S ep m).0).0

  abbrev renewed : Manager S → EndpointEntry S
  renewed m = record {
    id = m.next_id;
    endpoint = S.create_endpoint reg.transport_registry;
    user_count = [];
  }

  removed-lookup :
      (ep : String) (m : Manager S)
      → lookup ep (remove_mavlink_endpoint S ep m).0.endpoint_db ≡ none
  unfolding remove_mavlink_endpoint
  removed-lookup ep m = ground (arith, lookup-erase ep ep m.endpoint_db, eq_iff ep ep)

  added-lookup :
      (ep : String) (m : Manager S)
      → lookup ep m.endpoint_db ≡ none
      → lookup ep (add_mavlink_endpoint S reg ep m).0.endpoint_db ≡ some (renewed m)
  unfolding add_mavlink_endpoint
  added-lookup ep m e = ground (arith, lookup-emplace ep ep (renewed m) m.endpoint_db, eq_iff ep ep)

  created-lookup :
      (ep r : String) (m : Manager S) (entry : EndpointEntry S)
      → lookup ep m.endpoint_db ≡ some entry
      → let made = create_mavlink_endpoint_user S ep r m in
        (lookup ep made.0.endpoint_db
          ≡ some (record entry { user_count = count_up r entry.user_count }))
        × (made.1 ≡ some (record { endpoint = entry.id; endpoint_name = ep; user_name = r }))
  unfolding create_mavlink_endpoint_user
  created-lookup ep r m entry e =
      rw (e, create_mavlink_endpoint_user) (lookup-insert_self ep _ _, refl)

  released-list :
      (h : MavlinkEndpointUser) (m : Manager S) (entry : EndpointEntry S)
      → lookup h.endpoint_name m.endpoint_db ≡ some entry
      → get_mavlink_endpoint_user_list S h.endpoint_name (destroy_user S h m)
        ≡ some (count_down h.user_name entry.user_count)
  unfolding get_mavlink_endpoint_user_list destroy_user remove_mavlink_endpoint_user
  released-list h m entry e =
      rw (e, destroy_user, remove_mavlink_endpoint_user)
        (rw (lookup-insert_self h.endpoint_name, get_mavlink_endpoint_user_list))

  next_id-remove :
      (ep : String) (m : Manager S) → (remove_mavlink_endpoint S ep m).0.next_id ≡ m.next_id
  unfolding remove_mavlink_endpoint
  next_id-remove ep m = ground arith

  -- Let an endpoint be removed and its name go to a new one, on which the requester of an old handle
  -- gets a new handle. When the old handle is destroyed, the new endpoint counts no user any more,
  -- though the requester holds the new handle, which refers to the new endpoint's object.
  pub stale_release :
      (h : MavlinkEndpointUser) (m : Manager S)
      → let now = replaced h.endpoint_name h.user_name m in
        (get_mavlink_endpoint_user_list S h.endpoint_name (destroy_user S h now.0) ≡ some [])
        × (now.1
            ≡ some (record {
              endpoint = m.next_id;
              endpoint_name = h.endpoint_name;
              user_name = h.user_name;
            }))
  stale_release h m =
      let removed = (remove_mavlink_endpoint S h.endpoint_name m).0 in
      let added = (add_mavlink_endpoint S reg h.endpoint_name removed).0 in
      let created =
        created-lookup h.endpoint_name h.user_name added (renewed removed)
          (added-lookup h.endpoint_name removed (removed-lookup h.endpoint_name m)) in
      (
        released-list h (replaced h.endpoint_name h.user_name m).0 _ created.0
            ∙ ap some (count_down-count_up h.user_name),
        created.1 ∙ rw (next_id-remove h.endpoint_name m),
      )
