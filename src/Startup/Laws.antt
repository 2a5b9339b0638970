-- ===== src/Startup/Laws.antt =====
-- What `applyConfig` of src/app/startup/AppConfigurator.cpp brings about.
use mavlink_hub.Base.{
  String, ◌≡◌, refl, ap, ◌≢◌, ◌==◌, eq_iff, Bool, true, false, ◌&&◌, Bool-cases, Option,
  Option-cases, is_some, none, some, [], ◌∷◌, ◌++◌, inl, inr, arith,
}
use mavlink_hub.Base.Dict.{Dict}
use mavlink_hub.Common.{OperationResult, fresh}
use mavlink_hub.Sdk.{Sdk}
use mavlink_hub.Registry.Admin.{AgentRegistry}
use mavlink_hub.Manager.Types.{UserPlan}
use mavlink_hub.Manager.State.{Registries}
use mavlink_hub.Loader.{DynamicLibraries, LibLoader, LibInfo, load_agent_lib, load_transport_lib}
use mavlink_hub.Loader.Laws.{load_agent_lib_iff, load_transport_lib_iff}
use mavlink_hub.Json.Api.{JsonApi, Decoded, thrown, nothing, just}
use mavlink_hub.Json.Config.{AppConfig}
use mavlink_hub.Json.Decode.{string_to_user_plan}
use mavlink_hub.Service.Commands.{load_plan_from_path, apply_current_plan}
use mavlink_hub.Service.Execute.{
  CommandResult, AppService, Response, Outside, execute_command, run_case, load_from_path,
  keep_plan, apply_plan,
}
use mavlink_hub.Service.Laws.{Answers, Answers-elim}
use mavlink_hub.Startup.{
  Hub, Applied, registries, load_agent_libs, load_transport_libs, load_libs, merge_answer,
  after_load, apply_startup_plan, run_startup_plan, load_extra_libs, open_extra_libs,
  after_own_libs, apply_config,
}

pub and_true : (a b : Bool) → a && b ≡ true → (a ≡ true) × (b ≡ true)
and_true true b h = (refl, h)
and_true false b h = cc

module _ {S : Sdk} (J : JsonApi) (L : DynamicLibraries S) (outside : Outside)
    (registry : AgentRegistry) where
  -- The library opens, has the symbol, and the getter gives a definition.
  abbrev pub AgentIsProvided : LibInfo → Type 0
  AgentIsProvided info =
      (handle : L.LibHandle) × (definition : S.AgentDefinition) × ((symbol : L.Symbol) × (L.dlopen
            info.path
          ≡ some handle)
        × (L.dlsym handle info.sym ≡ some symbol)
        × (L.get_agent_definition symbol ≡ some definition))

  abbrev pub TransportIsProvided : LibInfo → Type 0
  TransportIsProvided info =
      (handle : L.LibHandle) × (definition : S.TransportDefinition) × ((symbol : L.Symbol)
        × (L.dlopen info.path ≡ some handle)
        × (L.dlsym handle info.sym ≡ some symbol)
        × (L.get_transport_definition symbol ≡ some definition))

  abbrev pub AllOf : (LibInfo → Type 0) → Dict LibInfo → Type 0
  AllOf P [] = Unit {0}
  AllOf P ((name, info) ∷ list) = P info × AllOf P list

  pub load_agent_libs-success :
      (list : Dict LibInfo) (l : LibLoader L) (result : OperationResult)
      → (load_agent_libs J L outside registry list (l, result)).1.success ≡ true
      → (result.success ≡ true) × AllOf AgentIsProvided list
  unfolding load_agent_libs
  load_agent_libs-success [] l result h = (h, tt)
  load_agent_libs-success ((name, info) ∷ list) l result h =
      let loaded = load_agent_lib L registry info l in
      let rest = load_agent_libs-success list loaded.0 _ h in
      let both = and_true result.success loaded.1.success rest.0 in
      (both.0, ((load_agent_lib_iff L info l registry).0 both.1, rest.1))

  pub load_transport_libs-success :
      (list : Dict LibInfo) (l : LibLoader L) (result : OperationResult)
      → (load_transport_libs J L outside registry list (l, result)).1.success ≡ true
      → (result.success ≡ true) × AllOf TransportIsProvided list
  unfolding load_transport_libs
  load_transport_libs-success [] l result h = (h, tt)
  load_transport_libs-success ((name, info) ∷ list) l result h =
      let loaded = load_transport_lib L info l in
      let rest = load_transport_libs-success list loaded.0 _ h in
      let both = and_true result.success loaded.1.success rest.0 in
      (both.0, ((load_transport_lib_iff L info l).0.0 both.1, rest.1))

  -- With its success, the command leaves a plan in the service.
  abbrev HasPlan : AppService S × CommandResult → Type 0
  HasPlan answered = answered.1.success ≡ true → is_some answered.0.current_plan ≡ true

  apply_current-HasPlan :
      (reg : Registries S) (service : AppService S)
      → is_some service.current_plan ≡ true
      → Answers HasPlan (
          execute_command S J outside reg
            (record { cmd_type = apply_current_plan; payload = "" })
            service)
  unfolding execute_command run_case apply_plan
  apply_current-HasPlan reg service k = elim (Option-cases service.current_plan) [
    | inl e ↦ absurd (cc)
    | inr (plan, e) ↦ rw (e, apply_plan) (λ h. ap is_some e)
  ]

  load_from_path-HasPlan :
      (reg : Registries S) (path : String) (service : AppService S)
      → Answers HasPlan (
          execute_command S J outside reg
            (record { cmd_type = load_plan_from_path; payload = path })
            service)
  unfolding execute_command run_case load_from_path keep_plan
  load_from_path-HasPlan reg path service = elim (Option-cases (outside.open_file path)) [
    | inl e ↦ rw (e, Answers, load_from_path) (λ h. cc)
    | inr (text, e) ↦
        rw (e, Answers, load_from_path) (kept (string_to_user_plan J outside.uninit_policy text))
  ]
    where
      kept : (plan : Decoded UserPlan) → Answers HasPlan (keep_plan S J service plan)
      kept thrown = tt
      kept nothing = λ h. cc
      kept (just plan) = λ h. refl

  -- A success at the end is one at the start, and leaves a plan in the service.
  abbrev Started : OperationResult → Hub J L outside registry × OperationResult → Type 0
  Started result applied =
      applied.1.success ≡ true
      → (result.success ≡ true) × (is_some applied.0.app_service.current_plan ≡ true)

  merge_answer-Started :
      (hub : Hub J L outside registry) (result : OperationResult) (response : Response S J)
      → Answers HasPlan response
      → Answers (Started result) (merge_answer J L outside registry hub result response)
  unfolding merge_answer
  merge_answer-Started hub result none k = tt
  merge_answer-Started hub result (some (service, r)) k =
      λ h. let both = and_true result.success r.success h in (both.0, k both.1)

  apply_startup_plan-Started :
      (apply : Bool) (hub : Hub J L outside registry) (loaded : Bool) (result : OperationResult)
      → (loaded ≡ true → is_some hub.app_service.current_plan ≡ true)
      → (result.success ≡ true → loaded ≡ true)
      → Answers (Started result) (apply_startup_plan J L outside registry apply hub loaded result)
  unfolding apply_startup_plan
  apply_startup_plan-Started true hub true result k r =
      merge_answer-Started hub result _
        (apply_current-HasPlan (registries J L outside registry hub) hub.app_service (k refl))
  apply_startup_plan-Started true hub false result k r = λ h. (h, k (r h))
  apply_startup_plan-Started false hub loaded result k r = λ h. (h, k (r h))

  -- Success of the steps after the config's own libraries.
  abbrev Ended : AppConfig → OperationResult → Hub J L outside registry × OperationResult → Type 0
  Ended config result applied =
      applied.1.success ≡ true
      → (result.success ≡ true)
        × (config.path_to_startup_user_plan ≢ ""
            → is_some applied.0.app_service.current_plan ≡ true)

  Ended-Started :
      (config : AppConfig) (result loaded : OperationResult)
      (applied : Applied J L outside registry)
      → (loaded.success ≡ true → result.success ≡ true)
      → Answers (Started loaded) applied
      → Answers (Ended config result) applied
  Ended-Started config result loaded none f k = tt
  Ended-Started config result loaded (some a) f k = λ h. (f (k h).0, λ p. (k h).1)

  Ended-mono :
      (config : AppConfig) (result loaded : OperationResult)
      (applied : Applied J L outside registry)
      → (loaded.success ≡ true → result.success ≡ true)
      → Answers (Ended config loaded) applied
      → Answers (Ended config result) applied
  Ended-mono config result loaded none f k = tt
  Ended-mono config result loaded (some a) f k = λ h. (f (k h).0, (k h).1)

  after_load-Ended :
      (config : AppConfig) (hub : Hub J L outside registry) (result : OperationResult)
      (response : Response S J)
      → Answers HasPlan response
      → Answers (Ended config result) (after_load J L outside registry config hub result response)
  unfolding after_load
  after_load-Ended config hub result none k = tt
  after_load-Ended config hub result (some (service, r)) k =
      Ended-Started config result
        (record { success = result.success && r.success; messages = result.messages ++ r.message })
        _ (λ h. (and_true result.success r.success h).0)
        (apply_startup_plan-Started config.apply_user_plan_on_startup _ r.success _ k
          (λ h. (and_true result.success r.success h).1))

  run_startup_plan-Ended :
      (config : AppConfig) (hub : Hub J L outside registry) (result : OperationResult)
      → Answers (Ended config result) (run_startup_plan J L outside registry config hub result)
  unfolding run_startup_plan
  run_startup_plan-Ended config hub result =
      elim (Bool-cases (config.path_to_startup_user_plan == "")) [
        | inl e ↦
            rw (e, Answers, run_startup_plan)
              (λ h. (h, λ n. absurd (n ((eq_iff config.path_to_startup_user_plan "").0 e))))
        | inr e ↦
            rw (e, Answers, run_startup_plan)
              (after_load-Ended config hub result _
                (load_from_path-HasPlan (registries J L outside registry hub) _ hub.app_service))
      ]

  load_libs-success :
      (config : AppConfig) (l : LibLoader L) (result : OperationResult)
      → (load_libs J L outside registry config (l, result)).1.success ≡ true
      → (result.success ≡ true)
        × (AllOf AgentIsProvided config.agent_lib_list)
        × AllOf TransportIsProvided config.transport_lib_list
  unfolding load_libs
  load_libs-success config l result h =
      let transports = load_transport_libs-success config.transport_lib_list _ _ h in
      let agents = load_agent_libs-success config.agent_lib_list l result transports.0 in
      (agents.0, agents.1, transports.1)

  load_extra_libs-Ended :
      (config : AppConfig) (hub : Hub J L outside registry) (extra : Decoded AppConfig)
      (result : OperationResult)
      → Answers (Ended config result) (load_extra_libs J L outside registry config hub extra result)
  unfolding load_extra_libs
  load_extra_libs-Ended config hub thrown result = tt
  load_extra_libs-Ended config hub nothing result = λ h. absurd (ground arith)
  load_extra_libs-Ended config hub (just libs) result =
      Ended-mono config result (load_libs J L outside registry libs (hub.lib_loader, result)).1 _
        (λ h. (load_libs-success libs hub.lib_loader result h).0)
        (run_startup_plan-Ended config _ _)

  after_own_libs-Ended :
      (config : AppConfig) (hub : Hub J L outside registry) (result : OperationResult)
      → Answers (Ended config result) (after_own_libs J L outside registry config hub result)
  unfolding after_own_libs open_extra_libs
  after_own_libs-Ended config hub result = elim (Bool-cases (config.path_to_extra_lib_list == "")) [
    | inl e ↦ rw (e, Answers, after_own_libs) (run_startup_plan-Ended config hub result)
    | inr e ↦
        rw (e, Answers, after_own_libs) (opened (outside.open_file config.path_to_extra_lib_list))
  ]
    where
      opened :
          (file : Option String)
          → Answers
              (Ended config result)
              (open_extra_libs J L outside registry config hub result file)
      opened none = λ h. absurd (ground arith)
      opened (some text) = load_extra_libs-Ended config hub _ result

  -- A start that succeeds: so did the loads of the config's own libraries, and where the config names
  -- a startup plan the service has a plan.
  pub apply_config_succeeded :
      (config : AppConfig) (hub hub' : Hub J L outside registry) (result : OperationResult)
      → apply_config J L outside registry config hub ≡ some (hub', result)
      → result.success ≡ true
      → ((load_libs J L outside registry config (hub.lib_loader, fresh)).1.success ≡ true)
        × (config.path_to_startup_user_plan ≢ "" → is_some hub'.app_service.current_plan ≡ true)
  unfolding apply_config
  apply_config_succeeded config hub hub' result e h =
      let loaded = load_libs J L outside registry config (hub.lib_loader, fresh) in
      Answers-elim (Ended config loaded.1) _ (hub', result)
        (after_own_libs-Ended config (record hub { lib_loader = loaded.0 }) loaded.1) e h
