-- ===== src/Manager/Requests.antt =====
-- src/manager/ManagerResourceRequester.cpp, and the run of an agent's script on the manager.
use mavlink_hub.Base.{String, Option}
use mavlink_hub.Sdk.{
  Sdk, Calls, MavlinkEndpointUser, done, request_mavlink_endpoint, get_mavlink_endpoint_list,
  release, create_listener, get_num_of_listener, write_message, get_state,
}
use mavlink_hub.Manager.State.{Manager}
use mavlink_hub.Manager.Users.{create_mavlink_endpoint_user}
use mavlink_hub.Manager.Handles
use mavlink_hub.Manager.Queries

module _ (S : Sdk) where
  -- A requester is its name; `requestMavlinkEndpoint`.
  unfoldable pub request : String → String → Manager S → Manager S × Option MavlinkEndpointUser
  request name ep_name m = create_mavlink_endpoint_user S ep_name name m

  unfoldable pub perform : {R : Type 0} → String → Calls S R → Manager S → Manager S × R
  perform name (done r) m = (m, r)
  perform name (request_mavlink_endpoint ep_name k) m =
      let step = request name ep_name m in perform name (k step.1) step.0
  perform name (get_mavlink_endpoint_list k) m =
      perform name (k (Queries.get_mavlink_endpoint_list S m)) m
  perform name (release user k) m = perform name k (Handles.destroy_user S user m)
  perform name (create_listener user listener k) m =
      let step = Handles.create_listener S user listener m in perform name (k step.1) step.0
  perform name (get_num_of_listener user k) m =
      perform name (k (Handles.get_num_of_listener S user m)) m
  perform name (write_message user msg k) m =
      let step = Handles.write_message S user msg m in perform name (k step.1) step.0
  perform name (get_state user k) m = perform name (k (Handles.get_state S user m)) m
