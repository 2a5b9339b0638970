-- ===== src/Manager/Handles.antt =====
-- src/manager/mavlink_endpoint_user/MavlinkEndpointUser.cpp: the handle that an agent holds. It
-- reaches the endpoint by a weak pointer, which locks while the manager still owns the object.
use mavlink_hub.Base.{ℕ, same, String, Option, none, some, if◌then◌else◌, [], ◌∷◌}
use mavlink_hub.Base.Count.{ℤ}
use mavlink_hub.Base.Dict
use mavlink_hub.Base.Dict.{Dict}
use mavlink_hub.Sdk.{Sdk, MavlinkEndpointUser, EndpointState}
use mavlink_hub.Manager.State.{Manager, EndpointEntry}
use mavlink_hub.Manager.Users.{remove_mavlink_endpoint_user}

module _ (S : Sdk) where
  -- `d->endpoint.lock()`: the name and entry that own the object, if any does.
  unfoldable pub lock : ℕ → Dict (EndpointEntry S) → Option (String × EndpointEntry S)
  lock id [] = none
  lock id ((name, entry) ∷ db) = if same entry.id id then some (name, entry) else lock id db

  abbrev pub set_endpoint : String → EndpointEntry S → S.Endpoint → Manager S → Manager S
  set_endpoint name entry endpoint m = record m {
    endpoint_db = Dict.insert name (record entry { endpoint = endpoint }) m.endpoint_db;
  }

  unfoldable pub create_listener :
      MavlinkEndpointUser → S.Listener → Manager S → Manager S × Option S.Token
  create_listener user listener m = elim (lock user.endpoint m.endpoint_db) [
    | none ↦ (m, none)
    | some (name, entry) ↦
        let made = S.endpoint_create_listener entry.endpoint listener in
        (set_endpoint name entry made.0 m, some made.1)
  ]

  unfoldable pub get_num_of_listener : MavlinkEndpointUser → Manager S → Option ℤ
  get_num_of_listener user m = elim (lock user.endpoint m.endpoint_db) [
    | none ↦ none
    | some (name, entry) ↦ some (S.endpoint_num_of_listener entry.endpoint)
  ]

  unfoldable pub write_message : MavlinkEndpointUser → S.Message → Manager S → Manager S × Option ℤ
  write_message user msg m = elim (lock user.endpoint m.endpoint_db) [
    | none ↦ (m, none)
    | some (name, entry) ↦
        let written = S.endpoint_write_message entry.endpoint msg in
        (set_endpoint name entry written.0 m, some written.1)
  ]

  unfoldable pub get_state : MavlinkEndpointUser → Manager S → Option EndpointState
  get_state user m = elim (lock user.endpoint m.endpoint_db) [
    | none ↦ none
    | some (name, entry) ↦ some (S.endpoint_state entry.endpoint)
  ]

  -- `~MavlinkEndpointUserImpl`
  unfoldable pub destroy_user : MavlinkEndpointUser → Manager S → Manager S
  destroy_user user m = (remove_mavlink_endpoint_user S user.endpoint_name user.user_name m).0
