-- ===== src/Manager/Handled.antt =====
-- The calls of src/manager/Manager.cpp that change reference counts, against the handles that are
-- alive.
use mavlink_hub.Base.{
  String, ◌≡◌, false, ◌==◌, eq_iff, eq_refl, Option, none, some, List, ◌∷◌, ◌++◌, arith, inl, inr,
  Bool-cases, Option-cases,
}
use mavlink_hub.Base.Count.{ℤ}
use mavlink_hub.Base.Dict.{Dict, lookup, lookup-insert}
use mavlink_hub.Sdk.{Sdk, MavlinkEndpointUser}
use mavlink_hub.Manager.State.{Manager, EndpointEntry}
use mavlink_hub.Manager.Users.{
  set_users, create_mavlink_endpoint_user, remove_mavlink_endpoint_user,
}
use mavlink_hub.Manager.Counts.{uses, counter, uses-middle, lookup-count_up, lookup-count_down}

module _ (S : Sdk) where
  -- Every counter of every endpoint is the number of its requester's live handles.
  abbrev pub Tracks : Manager S → List MavlinkEndpointUser → Type 0
  Tracks m live =
      (ep user : String) (entry : EndpointEntry S)
      → lookup ep m.endpoint_db ≡ some entry
      → lookup user entry.user_count ≡ counter (uses ep user live)

  abbrev pub handles_after :
      Option MavlinkEndpointUser → List MavlinkEndpointUser → List MavlinkEndpointUser
  handles_after none live = live
  handles_after (some h) live = h ∷ live

  pub Tracks-set_users :
      (ep : String) (entry : EndpointEntry S) (users : Dict ℤ) (m : Manager S)
      (live live' : List MavlinkEndpointUser)
      → Tracks m live
      → ((user : String) → lookup user users ≡ counter (uses ep user live'))
      → ((ep' user : String) → (ep == ep') ≡ false → uses ep' user live' ≡ uses ep' user live)
      → Tracks (set_users S ep entry users m) live'
  Tracks-set_users ep entry users m live live' t here other ep' user e' h =
      elim (Bool-cases (ep == ep')) [
        | inl hit ↦ ground (
          arith,
          eq_iff ep ep',
          lookup-insert ep ep' (record entry { user_count = users }) m.endpoint_db,
          here user,
        )
        | inr miss ↦ rw (other ep' user miss) (
            t ep' user e' (
              ground
                (arith, lookup-insert ep ep' (record entry { user_count = users }) m.endpoint_db)))
      ]

  abbrev pub handle : String → String → EndpointEntry S → MavlinkEndpointUser
  handle ep r entry = record { endpoint = entry.id; endpoint_name = ep; user_name = r }

  pub Tracks-create :
      (ep r : String) (m : Manager S) (live : List MavlinkEndpointUser)
      → Tracks m live
      → let made = create_mavlink_endpoint_user S ep r m in
        Tracks made.0 (handles_after made.1 live)
  unfolding create_mavlink_endpoint_user
  Tracks-create ep r m live t = elim (Option-cases (lookup ep m.endpoint_db)) [
    | inl e ↦ rw (e, create_mavlink_endpoint_user) t
    | inr (entry, e) ↦
        rw (e, create_mavlink_endpoint_user)
          (Tracks-set_users ep entry _ m live (handles_after (some (handle ep r entry)) live) t
            (λ user.
              rw (eq_refl ep) (lookup-count_up r user entry.user_count _ (t ep user entry e)))
            (λ ep' user miss. rw miss (omega arith)))
  ]

  pub Tracks-release :
      (xs ys : List MavlinkEndpointUser) (h : MavlinkEndpointUser) (m : Manager S)
      → Tracks m (xs ++ h ∷ ys)
      → Tracks (remove_mavlink_endpoint_user S h.endpoint_name h.user_name m).0 (xs ++ ys)
  unfolding remove_mavlink_endpoint_user
  Tracks-release xs ys h m t = elim (Option-cases (lookup h.endpoint_name m.endpoint_db)) [
    | inl e ↦
        rw (e, remove_mavlink_endpoint_user)
          (λ ep user entry f. elim (Bool-cases (h.endpoint_name == ep)) [
            | inl hit ↦ absurd (ground (arith, eq_iff h.endpoint_name ep))
            | inr miss ↦ ground (arith, t ep user entry f, uses-middle ep user xs ys h)
          ])
    | inr (entry, e) ↦
        rw (e, remove_mavlink_endpoint_user)
          (Tracks-set_users h.endpoint_name entry _ m (xs ++ h ∷ ys) (xs ++ ys) t
            (λ user.
              lookup-count_down h.user_name user entry.user_count
                (uses h.endpoint_name user (xs ++ ys))
                (ground (
                  arith,
                  t h.endpoint_name user entry e,
                  uses-middle h.endpoint_name user xs ys h,
                  eq_iff h.endpoint_name h.endpoint_name,
                )))
            (λ ep' user miss. ground (arith, uses-middle ep' user xs ys h)))
  ]
