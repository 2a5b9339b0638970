-- ===== src/Manager/Users.antt =====
-- The reference counts of src/manager/Manager.cpp: who uses which endpoint, and how often.
use mavlink_hub.Base.{String, Bool, true, Option, none, some, if◌then◌else◌}
use mavlink_hub.Base.Count.{ℤ, pos, inc, dec, is_zero}
use mavlink_hub.Base.Dict
use mavlink_hub.Base.Dict.{Dict}
use mavlink_hub.Sdk.{Sdk, MavlinkEndpointUser}
use mavlink_hub.Manager.State.{Manager, EndpointEntry}

-- `endpoint_users[requester_name] = 1` or `endpoint_users[requester_name]++`
unfoldable pub count_up : String → Dict ℤ → Dict ℤ
count_up requester_name endpoint_users = elim (Dict.lookup requester_name endpoint_users) [
  | none ↦ Dict.insert requester_name (pos 1) endpoint_users
  | some n ↦ Dict.insert requester_name (inc n) endpoint_users
]

-- `endpoint_users[requester_name]--`, and the entry goes when it reaches 0.
unfoldable pub count_down : String → Dict ℤ → Dict ℤ
count_down requester_name endpoint_users = elim (Dict.lookup requester_name endpoint_users) [
  | none ↦ endpoint_users
  | some n ↦
      if is_zero (dec n)
      then Dict.erase requester_name endpoint_users
      else Dict.insert requester_name (dec n) endpoint_users
]

module _ (S : Sdk) where
  abbrev pub set_users : String → EndpointEntry S → Dict ℤ → Manager S → Manager S
  set_users endpoint_name entry users m = record m {
    endpoint_db = Dict.insert endpoint_name (record entry { user_count = users }) m.endpoint_db;
  }

  -- `none` is the null pointer.
  unfoldable pub create_mavlink_endpoint_user :
      String → String → Manager S → Manager S × Option MavlinkEndpointUser
  create_mavlink_endpoint_user endpoint_name requester_name m =
      elim (Dict.lookup endpoint_name m.endpoint_db) [
        | none ↦ (m, none)
        | some entry ↦ (
          set_users endpoint_name entry (count_up requester_name entry.user_count) m,
          some (record {
            endpoint = entry.id;
            endpoint_name = endpoint_name;
            user_name = requester_name;
          }),
        )
      ]

  unfoldable pub remove_mavlink_endpoint_user : String → String → Manager S → Manager S × Bool
  remove_mavlink_endpoint_user endpoint_name requester_name m =
      elim (Dict.lookup endpoint_name m.endpoint_db) [
        | none ↦ (m, true)
        | some entry ↦
            (set_users endpoint_name entry (count_down requester_name entry.user_count) m, true)
      ]

  unfoldable pub get_mavlink_endpoint_user_list : String → Manager S → Option (Dict ℤ)
  get_mavlink_endpoint_user_list endpoint_name m = elim (Dict.lookup endpoint_name m.endpoint_db) [
    | none ↦ none
    | some entry ↦ some entry.user_count
  ]
