-- ===== src/Manager/Scripts.antt =====
-- Agents' scripts as histories on src/manager/Manager.cpp.
use mavlink_hub.Base.{String, ◌≡◌, subst, List, ◌∷◌, ◌++◌}
use mavlink_hub.Sdk.{
  Sdk, Calls, MavlinkEndpointUser, done, request_mavlink_endpoint, get_mavlink_endpoint_list,
  release, create_listener, get_num_of_listener, write_message, get_state,
}
use mavlink_hub.Manager.Users.{create_mavlink_endpoint_user}
use mavlink_hub.Manager.Handles
use mavlink_hub.Manager.Queries
use mavlink_hub.Manager.Requests.{request, perform}
use mavlink_hub.Manager.History.{World, IsCounted, after_create, creates, releases, listens, writes}
use mavlink_hub.Manager.Preserved.{Step-IsCounted}

module _ {S : Sdk} where
  -- A script that releases only handles that are alive, from a world on.
  abbrev pub IsHonest : {R : Type 0} → String → Calls S R → World S → Type 0
  IsHonest name (done r) w = Unit {0}
  IsHonest name (request_mavlink_endpoint ep k) w =
      IsHonest name (k (create_mavlink_endpoint_user S ep name w.manager).1)
        (after_create ep name w)
  IsHonest name (get_mavlink_endpoint_list k) w =
      IsHonest name (k (Queries.get_mavlink_endpoint_list S w.manager)) w
  IsHonest name (release h k) w =
      (xs : List MavlinkEndpointUser) × (ys : List MavlinkEndpointUser) × (w.live ≡ xs ++ h ∷ ys)
      × IsHonest name k (record { manager = Handles.destroy_user S h w.manager; live = xs ++ ys })
  IsHonest name (create_listener h listener k) w =
      let step = Handles.create_listener S h listener w.manager in
      IsHonest name (k step.1) (record w { manager = step.0 })
  IsHonest name (get_num_of_listener h k) w =
      IsHonest name (k (Handles.get_num_of_listener S h w.manager)) w
  IsHonest name (write_message h msg k) w =
      let step = Handles.write_message S h msg w.manager in
      IsHonest name (k step.1) (record w { manager = step.0 })
  IsHonest name (get_state h k) w = IsHonest name (k (Handles.get_state S h w.manager)) w

  -- The handles that are alive after such a script.
  unfoldable pub live_after :
      {R : Type 0} (name : String) (s : Calls S R) (w : World S)
      → IsHonest name s w
      → List MavlinkEndpointUser
  live_after name (done r) w h = w.live
  live_after name (request_mavlink_endpoint ep k) w h =
      live_after name (k _) (after_create ep name w) h
  live_after name (get_mavlink_endpoint_list k) w h = live_after name (k _) w h
  live_after name (release u k) w (xs, ys, e, h) =
      live_after name k (record { manager = _; live = xs ++ ys }) h
  live_after name (create_listener u listener k) w h =
      live_after name (k _) (record w { manager = _ }) h
  live_after name (get_num_of_listener u k) w h = live_after name (k _) w h
  live_after name (write_message u msg k) w h = live_after name (k _) (record w { manager = _ }) h
  live_after name (get_state u k) w h = live_after name (k _) w h

  -- An agent's code keeps exact counts exact if it releases only live handles: afterwards each
  -- endpoint counts, for each requester, the handles that are then alive.
  pub perform-IsCounted :
      {R : Type 0} (name : String) (s : Calls S R) (w : World S) (h : IsHonest name s w)
      → IsCounted w
      → IsCounted
          (record { manager = (perform S name s w.manager).0; live = live_after name s w h })
  unfolding perform request live_after
  perform-IsCounted name (done r) w h c = c
  perform-IsCounted name (request_mavlink_endpoint ep k) w h c =
      perform-IsCounted name (k _) (after_create ep name w) h (Step-IsCounted (creates w ep name) c)
  perform-IsCounted name (get_mavlink_endpoint_list k) w h c = perform-IsCounted name (k _) w h c
  perform-IsCounted name (release u k) w (xs, ys, e, h) c =
      perform-IsCounted name k (record { manager = _; live = xs ++ ys }) h
        (Step-IsCounted (releases w.manager xs ys u)
          (subst (λ live. IsCounted (record w { live = live })) e c))
  perform-IsCounted name (create_listener u listener k) w h c =
      perform-IsCounted name (k _) (record w { manager = _ }) h
        (Step-IsCounted (listens w u listener) c)
  perform-IsCounted name (get_num_of_listener u k) w h c = perform-IsCounted name (k _) w h c
  perform-IsCounted name (write_message u msg k) w h c =
      perform-IsCounted name (k _) (record w { manager = _ }) h (Step-IsCounted (writes w u msg) c)
  perform-IsCounted name (get_state u k) w h c = perform-IsCounted name (k _) w h c
