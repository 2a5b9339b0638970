-- ===== src/Manager/Frame.antt =====
-- What an agent's own code cannot change through its requester and handles: the set of endpoints,
-- their identities, and the agents.
use mavlink_hub.Base.{
  ℕ, String, ◌||◌, ◌==◌, ◌≡◌, refl, ◌∙◌, Bool, true, eq_iff, some, [], ◌∷◌, is_some, arith, inl,
  inr, Option-cases,
}
use mavlink_hub.Base.Dict
use mavlink_hub.Base.Dict.{Dict, lookup, lookup-insert, lookup-emplace}
use mavlink_hub.Sdk.{
  Sdk, Calls, MavlinkEndpointUser, done, request_mavlink_endpoint, get_mavlink_endpoint_list,
  release, create_listener, get_num_of_listener, write_message, get_state,
}
use mavlink_hub.Manager.State.{Manager, EndpointEntry}
use mavlink_hub.Manager.Users.{create_mavlink_endpoint_user, remove_mavlink_endpoint_user}
use mavlink_hub.Manager.Handles
use mavlink_hub.Manager.Requests.{request, perform}

-- Whether a name is taken.
abbrev pub has {ℓ} : {V : Type ℓ} → String → Dict V → Bool
has k m = is_some (lookup k m)

pub has-insert {ℓ} :
    {V : Type ℓ} (k n : String) (v : V) (m : Dict V)
    → has n m ≡ true
    → has k (Dict.insert n v m) ≡ has k m
has-insert k n v m h = ground (arith, lookup-insert n k v m, eq_iff n k)

pub has-emplace {ℓ} :
    {V : Type ℓ} (k n : String) (v : V) (m : Dict V)
    → has k (Dict.emplace n v m) ≡ (has k m || n == k)
has-emplace k n v m = ground (arith, lookup-emplace n k v m, eq_iff n k)

-- One step of agent code leaves the agents and the names of endpoints as they are.
pub record SameNames {S : Sdk} (m m' : Manager S) : Type 0 where
  pub agents : m'.agents ≡ m.agents
  pub names : (k : String) → has k m'.endpoint_db ≡ has k m.endpoint_db

module _ (S : Sdk) where
  SameNames-refl : (m : Manager S) → SameNames m m
  SameNames-refl m = record { agents = refl; names = λ k. refl }

  pub SameNames-trans : {a b c : Manager S} → SameNames a b → SameNames b c → SameNames a c
  SameNames-trans p q = record { agents = q.agents ∙ p.agents; names = λ k. q.names k ∙ p.names k }

  lock-has :
      (id : ℕ) (db : Dict (EndpointEntry S)) (name : String) (e : EndpointEntry S)
      → Handles.lock S id db ≡ some (name, e)
      → has name db ≡ true
  unfolding Handles.lock lookup
  lock-has id [] name e h = cc
  lock-has id ((n, entry) ∷ db) name e h = ground (arith, eq_iff n name, lock-has id db name e)

  create_user-SameNames :
      (ep user : String) (m : Manager S) → SameNames m (create_mavlink_endpoint_user S ep user m).0
  unfolding create_mavlink_endpoint_user
  create_user-SameNames ep user m = elim (Option-cases (lookup ep m.endpoint_db)) [
    | inl e ↦ rw (e, create_mavlink_endpoint_user) (SameNames-refl m)
    | inr (entry, e) ↦
        rw (e, create_mavlink_endpoint_user)
          (record { agents = refl; names = λ k. has-insert k ep _ m.endpoint_db (rw e) })
  ]

  remove_user-SameNames :
      (ep user : String) (m : Manager S) → SameNames m (remove_mavlink_endpoint_user S ep user m).0
  unfolding remove_mavlink_endpoint_user
  remove_user-SameNames ep user m = elim (Option-cases (lookup ep m.endpoint_db)) [
    | inl e ↦ rw (e, remove_mavlink_endpoint_user) (SameNames-refl m)
    | inr (entry, e) ↦
        rw (e, remove_mavlink_endpoint_user)
          (record { agents = refl; names = λ k. has-insert k ep _ m.endpoint_db (rw e) })
  ]

  create_listener-SameNames :
      (user : MavlinkEndpointUser) (listener : S.Listener) (m : Manager S)
      → SameNames m (Handles.create_listener S user listener m).0
  unfolding Handles.create_listener
  create_listener-SameNames user listener m =
      elim (Option-cases (Handles.lock S user.endpoint m.endpoint_db)) [
        | inl e ↦ rw (e, Handles.create_listener) (SameNames-refl m)
        | inr ((name, entry), e) ↦
            rw (e, Handles.create_listener)
              (record {
                agents = refl;
                names = λ k. has-insert k name _ m.endpoint_db (lock-has _ _ name entry e);
              })
      ]

  write_message-SameNames :
      (user : MavlinkEndpointUser) (msg : S.Message) (m : Manager S)
      → SameNames m (Handles.write_message S user msg m).0
  unfolding Handles.write_message
  write_message-SameNames user msg m =
      elim (Option-cases (Handles.lock S user.endpoint m.endpoint_db)) [
        | inl e ↦ rw (e, Handles.write_message) (SameNames-refl m)
        | inr ((name, entry), e) ↦
            rw (e, Handles.write_message)
              (record {
                agents = refl;
                names = λ k. has-insert k name _ m.endpoint_db (lock-has _ _ name entry e);
              })
      ]

  -- Whatever code an agent runs, through its requester and its handles it neither adds nor removes
  -- an endpoint, and it leaves the manager's agents as they are.
  pub perform-SameNames :
      {R : Type 0} (name : String) (s : Calls S R) (m : Manager S)
      → SameNames m (perform S name s m).0
  unfolding perform request Handles.destroy_user
  perform-SameNames name (done r) m = SameNames-refl m
  perform-SameNames name (request_mavlink_endpoint ep k) m =
      let step = create_mavlink_endpoint_user S ep name m in
      SameNames-trans (create_user-SameNames ep name m) (perform-SameNames name (k step.1) step.0)
  perform-SameNames name (get_mavlink_endpoint_list k) m = perform-SameNames name (k _) m
  perform-SameNames name (release user k) m =
      SameNames-trans (remove_user-SameNames user.endpoint_name user.user_name m)
        (perform-SameNames name k _)
  perform-SameNames name (create_listener user listener k) m =
      let step = Handles.create_listener S user listener m in
      SameNames-trans (create_listener-SameNames user listener m)
        (perform-SameNames name (k step.1) step.0)
  perform-SameNames name (get_num_of_listener user k) m = perform-SameNames name (k _) m
  perform-SameNames name (write_message user msg k) m =
      let step = Handles.write_message S user msg m in
      SameNames-trans (write_message-SameNames user msg m)
        (perform-SameNames name (k step.1) step.0)
  perform-SameNames name (get_state user k) m = perform-SameNames name (k _) m

  -- The two parts, as equations for rewriting.
  pub perform-agents :
      {R : Type 0} (name : String) (s : Calls S R) (m : Manager S)
      → (perform S name s m).0.agents ≡ m.agents
  perform-agents name s m = (perform-SameNames name s m).agents

  pub perform-has :
      {R : Type 0} (name : String) (s : Calls S R) (m : Manager S) (k : String)
      → has k (perform S name s m).0.endpoint_db ≡ has k m.endpoint_db
  perform-has name s m = (perform-SameNames name s m).names
