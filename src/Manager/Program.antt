-- ===== src/Manager/Program.antt =====
-- The operations of src/manager/Manager.cpp as sequences of calls: whatever the code of the agents
-- does through its requester, an operation amounts to a sequence of the calls of `Calls`.
use mavlink_hub.Base.{
  String, ◌≡◌, ◌⊎◌, refl, Bool, true, false, Option, Option-cases, none, some, List, [], ◌∷◌, inl,
  inr, eq_iff, arith, if◌then◌else◌,
}
use mavlink_hub.Base.Dict
use mavlink_hub.Base.Dict.{Dict, lookup, lookup-insert}
use mavlink_hub.Manager.Grows.{IsAdditive, Grows, grown, grow}
use mavlink_hub.Common.{OperationResult}
use mavlink_hub.Sdk.{
  Sdk, MavlinkEndpointUser, done, request_mavlink_endpoint, get_mavlink_endpoint_list, release,
  create_listener, get_num_of_listener, write_message, get_state, ParseResult, accepted, rejected,
}
use mavlink_hub.Sdk
use mavlink_hub.Manager.Types.{MavlinkEndpointEntry, AgentEntry, UserPlan}
use mavlink_hub.Manager.State.{Manager, Registries, Outcome}
use mavlink_hub.Manager.Plan.{result_at, execute_endpoint, execute_agent}
use mavlink_hub.Manager.Execute.{execute_endpoints, execute_agents, discards, execute_plan}
use mavlink_hub.Manager.Requests.{request, perform}
use mavlink_hub.Manager.Agents.{
  definition_of, set_agent, keep_agent, add_agent, keep_configured, edit_agent, start_agent,
  stop_agent,
}
use mavlink_hub.Manager.Calls.{
  Call, creates, releases, listens, writes, adds, connects, agents_change,
}

pub ParseResult-cases :
    {C : Type 0} (p : ParseResult C)
    → ((messages : List String) × (p ≡ rejected messages))
      ⊎ ((config : C) × (messages : List String) × (p ≡ accepted config messages))
ParseResult-cases (rejected messages) = inl (messages, refl)
ParseResult-cases (accepted config messages) = inr (config, messages, refl)

module _ {S : Sdk} where
  pub Grows-trans : (m n k : Manager S) → Grows S m n → Grows S n k → Grows S m k
  Grows-trans m n k a grown = a
  Grows-trans m n k a (grow {n = l} b call additive) = grow (Grows-trans m n l a b) call additive

  one : {m n : Manager S} (call : Call S m n) → IsAdditive S call → Grows S m n
  one call additive = grow grown call additive

  -- An agent's code makes calls, and nothing else.
  pub perform-Grows :
      {R : Type 0} (name : String) (s : Sdk.Calls S R) (m : Manager S)
      → Grows S m (perform S name s m).0
  unfolding perform request
  perform-Grows name (done r) m = grown
  perform-Grows name (request_mavlink_endpoint ep k) m =
      Grows-trans m _ _ (one (creates m ep name) tt) (perform-Grows name (k _) _)
  perform-Grows name (get_mavlink_endpoint_list k) m = perform-Grows name (k _) m
  perform-Grows name (release h k) m =
      Grows-trans m _ _ (one (releases m h) tt) (perform-Grows name k _)
  perform-Grows name (create_listener h listener k) m =
      Grows-trans m _ _ (one (listens m h listener) tt) (perform-Grows name (k _) _)
  perform-Grows name (get_num_of_listener h k) m = perform-Grows name (k _) m
  perform-Grows name (write_message h msg k) m =
      Grows-trans m _ _ (one (writes m h msg) tt) (perform-Grows name (k _) _)
  perform-Grows name (get_state h k) m = perform-Grows name (k _) m

  -- The agent's code has run, and its agent is kept.
  pub kept :
      (m n : Manager S) (name : String) (agent : S.Agent)
      → Grows S m n
      → Grows S m (set_agent S name agent n)
  kept m n name agent calls =
      grow calls (agents_change n (Dict.insert name agent n.agents))
        (λ k h. ground (arith, lookup-insert name k agent n.agents, eq_iff name k))

  keep_agent-Grows :
      (name : String) (messages : List String) (m : Manager S)
      (created : Manager S × Option S.Agent)
      → Grows S m created.0
      → Grows S m (keep_agent S name messages created).0
  unfolding keep_agent
  keep_agent-Grows name messages m (n, none) calls = calls
  keep_agent-Grows name messages m (n, some agent) calls = kept m n name agent calls

  pub add_agent-Grows :
      (reg : Registries S) (name type : String) (config : Dict String) (m : Manager S)
      → Grows S m (add_agent S reg name type config m).0
  unfolding add_agent
  add_agent-Grows reg name type config m = elim (Option-cases (lookup name m.agents)) [
    | inr (agent, e) ↦ rw (e, add_agent) grown
    | inl e ↦ elim (Option-cases (definition_of S reg type)) [
      | inl d ↦ rw (e, d, add_agent) grown
      | inr (definition, d) ↦ elim (ParseResult-cases (S.parse_agent_config definition config)) [
        | inl (messages, p) ↦ rw (e, d, p, add_agent) grown
        | inr (parsed, messages, p) ↦
            rw (e, d, p, add_agent)
              (keep_agent-Grows name messages m _
                (perform-Grows name (S.create definition parsed name) m))
      ]
    ]
  ]

  pub edit_agent-Grows :
      (reg : Registries S) (name type : String) (config : Dict String) (m : Manager S)
      → Grows S m (edit_agent S reg name type config m).0
  unfolding edit_agent keep_configured
  edit_agent-Grows reg name type config m = elim (Option-cases (lookup name m.agents)) [
    | inl e ↦ rw (e, edit_agent) grown
    | inr (agent, e) ↦ elim (Option-cases (definition_of S reg type)) [
      | inl d ↦ rw (e, d, edit_agent) grown
      | inr (definition, d) ↦ elim (ParseResult-cases (S.parse_agent_config definition config)) [
        | inl (messages, p) ↦ rw (e, d, p, edit_agent) grown
        | inr (parsed, messages, p) ↦
            rw (e, d, p, edit_agent)
              (kept m _ name _ (perform-Grows name (S.configure agent parsed) m))
      ]
    ]
  ]

  pub start_agent-Grows : (name : String) (m : Manager S) → Grows S m (start_agent S name m).0
  unfolding start_agent
  start_agent-Grows name m = elim (Option-cases (lookup name m.agents)) [
    | inl e ↦ rw (e, start_agent) grown
    | inr (agent, e) ↦ rw (e, start_agent) (kept m _ name _ (perform-Grows name (S.start agent) m))
  ]

  pub stop_agent-Grows : (name : String) (m : Manager S) → Grows S m (stop_agent S name m).0
  unfolding stop_agent
  stop_agent-Grows name m = elim (Option-cases (lookup name m.agents)) [
    | inl e ↦ rw (e, stop_agent) grown
    | inr (agent, e) ↦ rw (e, stop_agent) (kept m _ name _ (perform-Grows name (S.stop agent) m))
  ]

module _ {S : Sdk} (reg : Registries S) where
  if-Grows :
      (c : Bool) (m : Manager S) (x y : Outcome S)
      → Grows S m x.0
      → Grows S m y.0
      → Grows S m (if c then x else y).0
  if-Grows true m x y a b = a
  if-Grows false m x y a b = b

  execute_endpoint-Grows :
      (discard_plan : Bool) (validity : OperationResult) (name : String)
      (spec : MavlinkEndpointEntry) (m : Manager S)
      → Grows S m (execute_endpoint S reg discard_plan validity name spec m).0
  unfolding execute_endpoint
  execute_endpoint-Grows discard_plan validity name spec m =
      let added = one (adds m reg name) tt in
      let connected = grow added (connects _ name spec.type spec.config) tt in
      if-Grows _ m _ _ grown (if-Grows discard_plan m _ _ grown (if-Grows _ m _ _ connected added))

  execute_agent-Grows :
      (discard_plan : Bool) (validity : OperationResult) (name : String) (spec : AgentEntry)
      (m : Manager S)
      → Grows S m (execute_agent S reg discard_plan validity name spec m).0
  unfolding execute_agent
  execute_agent-Grows discard_plan validity name spec m =
      let added = add_agent-Grows reg name spec.type spec.config m in
      let started = Grows-trans m _ _ added (start_agent-Grows name _) in
      if-Grows _ m _ _ grown (if-Grows discard_plan m _ _ grown (if-Grows _ m _ _ started added))

  execute_endpoints-Grows :
      (discard_plan : Bool) (validity : Dict OperationResult) (plan : Dict MavlinkEndpointEntry)
      (m : Manager S) (results : Dict OperationResult)
      → Grows S m (execute_endpoints S reg discard_plan validity plan m results).0
  unfolding execute_endpoints
  execute_endpoints-Grows discard_plan validity [] m results = grown
  execute_endpoints-Grows discard_plan validity ((name, spec) ∷ plan) m results =
      Grows-trans m _ _ (execute_endpoint-Grows discard_plan (result_at name validity) name spec m)
        (execute_endpoints-Grows discard_plan validity plan _ _)

  execute_agents-Grows :
      (discard_plan : Bool) (validity : Dict OperationResult) (plan : Dict AgentEntry)
      (m : Manager S) (results : Dict OperationResult)
      → Grows S m (execute_agents S reg discard_plan validity plan m results).0
  unfolding execute_agents
  execute_agents-Grows discard_plan validity [] m results = grown
  execute_agents-Grows discard_plan validity ((name, spec) ∷ plan) m results =
      Grows-trans m _ _ (execute_agent-Grows discard_plan (result_at name validity) name spec m)
        (execute_agents-Grows discard_plan validity plan _ _)

  -- A plan's execution makes calls, and nothing else.
  pub execute_plan-Grows :
      (plan : UserPlan) (m : Manager S) → Grows S m (execute_plan S reg plan m).0
  unfolding execute_plan
  execute_plan-Grows plan m =
      Grows-trans m _ _ (execute_endpoints-Grows (discards S reg plan m) _ plan.endpoint_list m [])
        (execute_agents-Grows (discards S reg plan m) _ plan.agent_list _ [])
