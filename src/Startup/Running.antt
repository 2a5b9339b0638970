-- ===== src/Startup/Running.antt =====
-- The hub in operation: src/app/App.cpp has applied the configuration, the CLI hands commands to
-- src/app/app_service/AppService.cpp, and the agents run their code on src/manager/Manager.cpp.
use mavlink_hub.Base.{
  String, ◌≡◌, ◌==◌, Bool, true, false, Bool-cases, Option, Option-cases, some, none, inl, inr,
}
use mavlink_hub.Common.{OperationResult}
use mavlink_hub.Sdk.{Sdk}
use mavlink_hub.Registry.Admin.{AgentRegistry}
use mavlink_hub.Loader.{DynamicLibraries}
use mavlink_hub.Manager.State.{Manager, Registries}
use mavlink_hub.Manager.Grows.{Grows, grown}
use mavlink_hub.Manager.Program.{Grows-trans, execute_plan-Grows}
use mavlink_hub.Json.Api.{JsonApi, Decoded, thrown, nothing, just}
use mavlink_hub.Json.Config.{AppConfig}
use mavlink_hub.Service.Commands.{AppServiceCommandType, apply_current_plan}
use mavlink_hub.Service.Execute.{
  CommandResult, AppServiceCommand, AppService, Response, Outside, apply_plan, run_case,
  execute_command,
}
use mavlink_hub.Service.Laws.{Answers, Answers-elim, run_case-KeepsManager}
use mavlink_hub.Startup.{
  Hub, Applied, registries, merge_answer, after_load, apply_startup_plan, run_startup_plan,
  load_extra_libs, open_extra_libs, after_own_libs, apply_config,
}
use mavlink_hub.Startup.Args.{Arguments}
use mavlink_hub.Startup.Begin.{begin_run, goes_on, begin_run_iff}

abbrev pub ServiceGrows : {S : Sdk} → Manager S → AppService S × CommandResult → Type 0
ServiceGrows {S} m answered = Grows S m answered.0.manager

module _ {S : Sdk} (J : JsonApi) (outside : Outside) (reg : Registries S) where
  apply_plan-Grows :
      (service : AppService S) → ServiceGrows service.manager (apply_plan S J reg service)
  unfolding apply_plan
  apply_plan-Grows service = elim (Option-cases service.current_plan) [
    | inl e ↦ rw (e, apply_plan) grown
    | inr (plan, e) ↦ rw (e, apply_plan) (execute_plan-Grows reg plan service.manager)
  ]

  same-Grows :
      (service : AppService S) (response : Response S J)
      → Answers (λ answered. answered.0.manager ≡ service.manager) response
      → Answers (ServiceGrows service.manager) response
  same-Grows service none k = tt
  same-Grows service (some answered) k = rw k grown

  run_case-Grows :
      (type : AppServiceCommandType) (payload : String) (service : AppService S)
      → Answers (ServiceGrows service.manager) (run_case S J outside reg type payload service)
  unfolding run_case
  run_case-Grows apply_current_plan payload service = apply_plan-Grows service
  run_case-Grows type payload service =
      same-Grows service (run_case S J outside reg type payload service)
        (run_case-KeepsManager S J outside reg type payload service (λ e. cc))

  -- A command removes nothing.
  pub execute_command-Grows :
      (cmd : AppServiceCommand) (service : AppService S)
      → Answers (ServiceGrows service.manager) (execute_command S J outside reg cmd service)
  unfolding execute_command
  execute_command-Grows cmd service = run_case-Grows cmd.cmd_type cmd.payload service

module _ {S : Sdk} (J : JsonApi) (L : DynamicLibraries S) (outside : Outside)
    (registry : AgentRegistry) where
  abbrev pub manager_of : Hub J L outside registry → Manager S
  manager_of hub = hub.app_service.manager

  abbrev HubGrows : Manager S → Hub J L outside registry × OperationResult → Type 0
  HubGrows m applied = Grows S m (manager_of applied.0)

  merge_answer-Grows :
      (m : Manager S) (hub : Hub J L outside registry) (result : OperationResult)
      (response : Response S J)
      → Answers (ServiceGrows m) response
      → Answers (HubGrows m) (merge_answer J L outside registry hub result response)
  unfolding merge_answer
  merge_answer-Grows m hub result none k = tt
  merge_answer-Grows m hub result (some answered) k = k

  Answers-trans :
      (m n : Manager S) (applied : Applied J L outside registry)
      → Grows S m n
      → Answers (HubGrows n) applied
      → Answers (HubGrows m) applied
  Answers-trans m n none g k = tt
  Answers-trans m n (some applied) g k = Grows-trans m n _ g k

  apply_startup_plan-Grows :
      (apply : Bool) (hub : Hub J L outside registry) (loaded : Bool) (result : OperationResult)
      → Answers
          (HubGrows (manager_of hub))
          (apply_startup_plan J L outside registry apply hub loaded result)
  unfolding apply_startup_plan
  apply_startup_plan-Grows true hub true result =
      merge_answer-Grows (manager_of hub) hub result _
        (execute_command-Grows J outside (registries J L outside registry hub) _ hub.app_service)
  apply_startup_plan-Grows true hub false result = grown
  apply_startup_plan-Grows false hub loaded result = grown

  after_load-Grows :
      (config : AppConfig) (m : Manager S) (hub : Hub J L outside registry)
      (result : OperationResult) (response : Response S J)
      → Answers (ServiceGrows m) response
      → Answers (HubGrows m) (after_load J L outside registry config hub result response)
  unfolding after_load
  after_load-Grows config m hub result none k = tt
  after_load-Grows config m hub result (some (service, r)) k =
      Answers-trans m service.manager _ k
        (apply_startup_plan-Grows config.apply_user_plan_on_startup _ r.success _)

  run_startup_plan-Grows :
      (config : AppConfig) (hub : Hub J L outside registry) (result : OperationResult)
      → Answers
          (HubGrows (manager_of hub))
          (run_startup_plan J L outside registry config hub result)
  unfolding run_startup_plan
  run_startup_plan-Grows config hub result =
      elim (Bool-cases (config.path_to_startup_user_plan == "")) [
        | inl e ↦ rw (e, Answers, run_startup_plan) grown
        | inr e ↦
            rw (e, Answers, run_startup_plan)
              (after_load-Grows config (manager_of hub) hub result _ (
                execute_command-Grows J outside (registries J L outside registry hub) _
                  hub.app_service))
      ]

  load_extra_libs-Grows :
      (config : AppConfig) (hub : Hub J L outside registry) (extra : Decoded AppConfig)
      (result : OperationResult)
      → Answers
          (HubGrows (manager_of hub))
          (load_extra_libs J L outside registry config hub extra result)
  unfolding load_extra_libs
  load_extra_libs-Grows config hub thrown result = tt
  load_extra_libs-Grows config hub nothing result = grown
  load_extra_libs-Grows config hub (just libs) result = run_startup_plan-Grows config _ _

  open_extra_libs-Grows :
      (config : AppConfig) (hub : Hub J L outside registry) (result : OperationResult)
      (file : Option String)
      → Answers
          (HubGrows (manager_of hub))
          (open_extra_libs J L outside registry config hub result file)
  unfolding open_extra_libs
  open_extra_libs-Grows config hub result none = grown
  open_extra_libs-Grows config hub result (some text) = load_extra_libs-Grows config hub _ result

  apply_config-Grows :
      (config : AppConfig) (hub : Hub J L outside registry)
      → Answers (HubGrows (manager_of hub)) (apply_config J L outside registry config hub)
  unfolding apply_config after_own_libs
  apply_config-Grows config hub = elim (Bool-cases (config.path_to_extra_lib_list == "")) [
    | inl e ↦ rw (e, Answers, apply_config, after_own_libs) (run_startup_plan-Grows config _ _)
    | inr e ↦ rw (e, Answers, apply_config, after_own_libs) (open_extra_libs-Grows config _ _ _)
  ]

  -- The start removes nothing.
  pub begin_run-Grows :
      (canonical : String → Option String) (args : Arguments) (hub begun : Hub J L outside registry)
      → begin_run J L outside registry canonical args hub ≡ some (goes_on begun)
      → Grows S (manager_of hub) (manager_of begun)
  begin_run-Grows canonical args hub begun e =
      let started = ((begin_run_iff J L outside registry canonical args hub).1 begun).0 e in
      Answers-elim (HubGrows (manager_of hub)) _ (begun, started.0)
        (apply_config-Grows started.1.0 hub) started.1.2
