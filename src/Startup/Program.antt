-- ===== src/Startup/Program.antt =====
-- The whole program: src/app/App.cpp starts the hub, then the CLI hands commands to
-- src/app/app_service/AppService.cpp while the agents run their code on src/manager/Manager.cpp.
use mavlink_hub.Base.{
  ℕ, String, ◌≡◌, sym, ◌∙◌, true, Option, none, some, [], ◌∷◌, eq_iff, arith, inl, inr,
}
use mavlink_hub.Base.Dict.{Dict, lookup}
use mavlink_hub.Sdk.{Sdk, MavlinkEndpointUser}
use mavlink_hub.Sdk
use mavlink_hub.Registry.Admin.{AgentRegistry}
use mavlink_hub.Loader.{DynamicLibraries}
use mavlink_hub.Manager.State.{Manager, EndpointEntry, empty_manager}
use mavlink_hub.Manager.Frame.{has}
use mavlink_hub.Manager.Handles
use mavlink_hub.Manager.Requests.{request, perform}
use mavlink_hub.Manager.Agents.{set_agent}
use mavlink_hub.Manager.Calls.{Calls, creates}
use mavlink_hub.Manager.Grows.{Grows, grown, grow, Keeps, Grows-Calls, Grows-Keeps}
use mavlink_hub.Manager.Program.{Grows-trans, perform-Grows, kept}
use mavlink_hub.Manager.Destroy.{destroy_agents, destroy_agents-Grows}
use mavlink_hub.Manager.Identity.{IsIdentified}
use mavlink_hub.Manager.Lifetime.{Calls-IsIdentified, created-entry, handle_reaches_own}
use mavlink_hub.Json.Api.{JsonApi}
use mavlink_hub.Service.Execute.{
  CommandResult, AppServiceCommand, AppService, Outside, execute_command,
}
use mavlink_hub.Service.Laws.{Answers-elim}
use mavlink_hub.Startup.{Hub, registries}
use mavlink_hub.Startup.Args.{Arguments}
use mavlink_hub.Startup.Begin.{begin_run, goes_on}
use mavlink_hub.Startup.Running.{manager_of, ServiceGrows, execute_command-Grows, begin_run-Grows}

module _ {S : Sdk} (J : JsonApi) (L : DynamicLibraries S) (outside : Outside)
    (registry : AgentRegistry) where
  abbrev pub with_manager : Hub J L outside registry → Manager S → Hub J L outside registry
  with_manager hub m = record hub { app_service = record hub.app_service { manager = m } }

  -- The hub in operation: the CLI's commands are answered, and agents run code of their own, with
  -- which an agent changes itself, in any order.
  pub data Serves (hub : Hub J L outside registry) : Hub J L outside registry → Type 0 where
    begun : Serves hub hub
    answers :
        {now : Hub J L outside registry}
        → Serves hub now
        → (cmd : AppServiceCommand) (service : AppService S) (result : CommandResult)
        → execute_command S J outside (registries J L outside registry now) cmd now.app_service
          ≡ some (service, result)
        → Serves hub (record now { app_service = service })
    works :
        {now : Hub J L outside registry}
        → Serves hub now
        → (name : String) (code : Sdk.Calls S S.Agent)
        → has name (manager_of J L outside registry now).agents ≡ true
        → Serves hub (
            let ran = perform S name code (manager_of J L outside registry now) in
            with_manager now (set_agent S name ran.1 ran.0))

  Serves-Grows :
      (hub now : Hub J L outside registry)
      → Serves hub now
      → Grows S (manager_of J L outside registry hub) (manager_of J L outside registry now)
  Serves-Grows hub now begun = grown
  Serves-Grows hub now (answers {now = before} serves cmd service result e) =
      Grows-trans _ _ _ (Serves-Grows hub before serves) (
        Answers-elim (ServiceGrows (manager_of J L outside registry before)) _ (service, result)
          (execute_command-Grows J outside _ cmd before.app_service) e)
  Serves-Grows hub now (works {now = before} serves name code h) =
      kept _ _ name _
        (Grows-trans _ _ _ (Serves-Grows hub before serves) (perform-Grows name code _))

  lock-found :
      (id : ℕ) (db : Dict (EndpointEntry S)) (name : String) (entry : EndpointEntry S)
      → lookup name db ≡ some entry
      → entry.id ≡ id
      → (Handles.lock S id db ≡ none)
      → ⊥
  unfolding Handles.lock lookup
  lock-found id [] name entry e h l = cc
  lock-found id ((n, first) ∷ db) name entry e h l =
      ground (arith, eq_iff n name, lock-found id db name entry)

  module _ (canonical : String → Option String) (args : Arguments) where
    running-Calls :
        (initial started now : Hub J L outside registry)
        → manager_of J L outside registry initial ≡ empty_manager S
        → begin_run J L outside registry canonical args initial ≡ some (goes_on started)
        → Serves started now
        → Calls S (empty_manager S) (manager_of J L outside registry now)
    running-Calls initial started now empty starts serves = rw (sym empty) (
        Grows-Calls S _ _ (
          Grows-trans _ _ _
            (begin_run-Grows J L outside registry canonical args initial started starts)
            (Serves-Grows started now serves)))

    -- Whatever the program was started with, and whatever commands and agents' code have followed:
    -- the names and the objects of the endpoints are distinct, and every endpoint, with its object,
    -- and every agent that is there stays whatever follows.
    pub registered_stays :
        (initial started now later : Hub J L outside registry)
        → manager_of J L outside registry initial ≡ empty_manager S
        → begin_run J L outside registry canonical args initial ≡ some (goes_on started)
        → Serves started now
        → Serves now later
        → IsIdentified S (manager_of J L outside registry now)
          × Keeps S (manager_of J L outside registry now) (manager_of J L outside registry later)
    registered_stays initial started now later empty starts before serves =
        let v = Calls-IsIdentified S _ (running-Calls initial started now empty starts before) in
        (v, Grows-Keeps S _ _ (Serves-Grows now later serves) v.distinct)

    -- An agent that is given a handle on an endpoint, in any state of the program, can use it to the
    -- end: whatever commands and agents' code follow, and whichever agents the end of the program has
    -- destroyed, in whatever order, the handle locks, and reaches the endpoint that stands under the name that
    -- was asked for.
    pub handle_stays_live :
        (requester ep : String) (h : MavlinkEndpointUser)
        (initial started now later : Hub J L outside registry) (destroyed : Dict S.Agent)
        → manager_of J L outside registry initial ≡ empty_manager S
        → begin_run J L outside registry canonical args initial ≡ some (goes_on started)
        → Serves started now
        → (request S requester ep (manager_of J L outside registry now)).1 ≡ some h
        → Serves
            (with_manager now (request S requester ep (manager_of J L outside registry now)).0)
            later
        → let end = destroy_agents S destroyed (manager_of J L outside registry later) in
          (entry : EndpointEntry S) × ((Handles.lock S h.endpoint end.endpoint_db
              ≡ some (ep, entry))
            × (lookup ep end.endpoint_db ≡ some entry))
    unfolding request
    handle_stays_live requester ep h initial started now later destroyed empty starts served e
          serves =
        let m = manager_of J L outside registry now in
        let n = destroy_agents S destroyed (manager_of J L outside registry later) in
        let before = running-Calls initial started now empty starts served in
        let grows =
          Grows-trans _ _ _ (Serves-Grows _ later serves) (destroy_agents-Grows S destroyed _) in
        let v = Calls-IsIdentified S m before in
        let made = created-entry S ep requester m h e in
        let keeps =
          Grows-Keeps S m n (Grows-trans _ _ _ (grow grown (creates m ep requester) tt) grows)
            v.distinct in
        let there = keeps.endpoints ep made.0 made.1.0 in
        elim (handle_reaches_own S ep requester h m n before e (Grows-Calls S _ _ grows)) [
          | inl free ↦
              absurd (
                lock-found h.endpoint n.endpoint_db ep there.0 there.1.0 (there.1.1 ∙ made.1.1)
                  free)
          | inr own ↦ own
        ]
