-- ===== src/Startup/Libraries.antt =====
-- The plugin libraries of the whole program: src/app/App.cpp with src/app/startup/AppConfigurator.cpp
-- and src/app/lib_loader/LibLoader.cpp.
use mavlink_hub.Base.{
  String, ◌≡◌, refl, sym, ◌∙◌, ap, ◌==◌, Bool, true, false, Bool-cases, Option, none, some, List,
  [], ◌∷◌, ◌++◌, inl, inr,
}
use mavlink_hub.Base.Dict.{Dict}
use mavlink_hub.Common.{OperationResult, fresh}
use mavlink_hub.Sdk.{Sdk}
use mavlink_hub.Registry.Admin.{AgentRegistry}
use mavlink_hub.Loader.{DynamicLibraries, LibLoader, LibInfo, load_agent_lib, load_transport_lib}
use mavlink_hub.Loader.Balance.{Load, agent_lib, transport_lib, load, load_all}
use mavlink_hub.Json.Api.{JsonApi, Decoded, thrown, nothing, just}
use mavlink_hub.Json.Config.{AppConfig}
use mavlink_hub.Service.Execute.{Response, Outside}
use mavlink_hub.Service.Laws.{Answers}
use mavlink_hub.Startup.{
  Hub, Applied, load_agent_libs, load_transport_libs, load_libs, merge_answer, after_load,
  apply_startup_plan, run_startup_plan, load_extra_libs, open_extra_libs, after_own_libs,
  apply_config,
}
use mavlink_hub.Startup.Program.{Serves, begun, answers, works}

module _ {S : Sdk} (J : JsonApi) (L : DynamicLibraries S) (outside : Outside)
    (registry : AgentRegistry) where
  -- The loader got to where it is by loads of libraries.
  abbrev pub LoadedFrom : LibLoader L → LibLoader L → Type 0
  LoadedFrom l after = (loads : List Load) × (after ≡ load_all L registry loads l)

  load_all-append :
      (xs ys : List Load) (l : LibLoader L)
      → load_all L registry (xs ++ ys) l ≡ load_all L registry ys (load_all L registry xs l)
  unfolding load_all
  load_all-append [] ys l = refl
  load_all-append (x ∷ xs) ys l = load_all-append xs ys (load L registry x l)

  LoadedFrom-refl : (l : LibLoader L) → LoadedFrom l l
  unfolding load_all
  LoadedFrom-refl l = ([], refl)

  LoadedFrom-trans : (l m n : LibLoader L) → LoadedFrom l m → LoadedFrom m n → LoadedFrom l n
  LoadedFrom-trans l m n (xs, a) (ys, b) =
      (xs ++ ys, b ∙ ap (load_all L registry ys) a ∙ sym (load_all-append xs ys l))

  pub load_agent_libs-LoadedFrom :
      (list : Dict LibInfo) (l : LibLoader L) (result : OperationResult)
      → LoadedFrom l (load_agent_libs J L outside registry list (l, result)).0
  unfolding load_agent_libs load_all
  load_agent_libs-LoadedFrom [] l result = LoadedFrom-refl l
  load_agent_libs-LoadedFrom ((name, info) ∷ list) l result =
      let rest = load_agent_libs-LoadedFrom list (load_agent_lib L registry info l).0 _ in
      (agent_lib info ∷ rest.0, rest.1)

  pub load_transport_libs-LoadedFrom :
      (list : Dict LibInfo) (l : LibLoader L) (result : OperationResult)
      → LoadedFrom l (load_transport_libs J L outside registry list (l, result)).0
  unfolding load_transport_libs load_all
  load_transport_libs-LoadedFrom [] l result = LoadedFrom-refl l
  load_transport_libs-LoadedFrom ((name, info) ∷ list) l result =
      let rest = load_transport_libs-LoadedFrom list (load_transport_lib L info l).0 _ in
      (transport_lib info ∷ rest.0, rest.1)

  load_libs-LoadedFrom :
      (config : AppConfig) (l : LibLoader L) (result : OperationResult)
      → LoadedFrom l (load_libs J L outside registry config (l, result)).0
  unfolding load_libs
  load_libs-LoadedFrom config l result =
      LoadedFrom-trans l _ _ (load_agent_libs-LoadedFrom config.agent_lib_list l result)
        (load_transport_libs-LoadedFrom config.transport_lib_list _ _)

  -- So did the loader of a hub.
  abbrev pub HubLoaded : LibLoader L → Hub J L outside registry × OperationResult → Type 0
  HubLoaded l applied = LoadedFrom l applied.0.lib_loader

  merge_answer-HubLoaded :
      (hub : Hub J L outside registry) (result : OperationResult) (response : Response S J)
      → Answers (HubLoaded hub.lib_loader) (merge_answer J L outside registry hub result response)
  unfolding merge_answer
  merge_answer-HubLoaded hub result none = tt
  merge_answer-HubLoaded hub result (some answered) = LoadedFrom-refl hub.lib_loader

  apply_startup_plan-HubLoaded :
      (apply : Bool) (hub : Hub J L outside registry) (loaded : Bool) (result : OperationResult)
      → Answers
          (HubLoaded hub.lib_loader)
          (apply_startup_plan J L outside registry apply hub loaded result)
  unfolding apply_startup_plan
  apply_startup_plan-HubLoaded true hub true result = merge_answer-HubLoaded hub result _
  apply_startup_plan-HubLoaded true hub false result = LoadedFrom-refl hub.lib_loader
  apply_startup_plan-HubLoaded false hub loaded result = LoadedFrom-refl hub.lib_loader

  after_load-HubLoaded :
      (config : AppConfig) (hub : Hub J L outside registry) (result : OperationResult)
      (response : Response S J)
      → Answers
          (HubLoaded hub.lib_loader)
          (after_load J L outside registry config hub result response)
  unfolding after_load
  after_load-HubLoaded config hub result none = tt
  after_load-HubLoaded config hub result (some (service, r)) =
      apply_startup_plan-HubLoaded config.apply_user_plan_on_startup _ r.success _

  run_startup_plan-HubLoaded :
      (config : AppConfig) (hub : Hub J L outside registry) (result : OperationResult)
      → Answers (HubLoaded hub.lib_loader) (run_startup_plan J L outside registry config hub result)
  unfolding run_startup_plan
  run_startup_plan-HubLoaded config hub result =
      elim (Bool-cases (config.path_to_startup_user_plan == "")) [
        | inl e ↦ rw (e, Answers, run_startup_plan) (LoadedFrom-refl hub.lib_loader)
        | inr e ↦ rw (e, Answers, run_startup_plan) (after_load-HubLoaded config hub result _)
      ]

  from-HubLoaded :
      (l m : LibLoader L) (applied : Applied J L outside registry)
      → LoadedFrom l m
      → Answers (HubLoaded m) applied
      → Answers (HubLoaded l) applied
  from-HubLoaded l m none a k = tt
  from-HubLoaded l m (some applied) a k = LoadedFrom-trans l m _ a k

  load_extra_libs-HubLoaded :
      (config : AppConfig) (hub : Hub J L outside registry) (extra : Decoded AppConfig)
      (result : OperationResult)
      → Answers
          (HubLoaded hub.lib_loader)
          (load_extra_libs J L outside registry config hub extra result)
  unfolding load_extra_libs
  load_extra_libs-HubLoaded config hub thrown result = tt
  load_extra_libs-HubLoaded config hub nothing result = LoadedFrom-refl hub.lib_loader
  load_extra_libs-HubLoaded config hub (just libs) result =
      from-HubLoaded hub.lib_loader _ _ (load_libs-LoadedFrom libs hub.lib_loader result)
        (run_startup_plan-HubLoaded config _ _)

  open_extra_libs-HubLoaded :
      (config : AppConfig) (hub : Hub J L outside registry) (result : OperationResult)
      (file : Option String)
      → Answers
          (HubLoaded hub.lib_loader)
          (open_extra_libs J L outside registry config hub result file)
  unfolding open_extra_libs
  open_extra_libs-HubLoaded config hub result none = LoadedFrom-refl hub.lib_loader
  open_extra_libs-HubLoaded config hub result (some text) =
      load_extra_libs-HubLoaded config hub _ result

  pub after_own_libs-HubLoaded :
      (config : AppConfig) (hub : Hub J L outside registry) (result : OperationResult)
      → Answers (HubLoaded hub.lib_loader) (after_own_libs J L outside registry config hub result)
  unfolding after_own_libs
  after_own_libs-HubLoaded config hub result =
      elim (Bool-cases (config.path_to_extra_lib_list == "")) [
        | inl e ↦ rw (e, Answers, after_own_libs) (run_startup_plan-HubLoaded config hub result)
        | inr e ↦ rw (e, Answers, after_own_libs) (open_extra_libs-HubLoaded config hub result _)
      ]

  pub apply_config-HubLoaded :
      (config : AppConfig) (hub : Hub J L outside registry)
      → Answers (HubLoaded hub.lib_loader) (apply_config J L outside registry config hub)
  unfolding apply_config
  apply_config-HubLoaded config hub =
      from-HubLoaded hub.lib_loader _ _ (load_libs-LoadedFrom config hub.lib_loader fresh)
        (after_own_libs-HubLoaded config _ _)

  pub Serves-lib_loader :
      (hub now : Hub J L outside registry)
      → Serves J L outside registry hub now
      → now.lib_loader ≡ hub.lib_loader
  Serves-lib_loader hub now begun = refl
  Serves-lib_loader hub now (answers {now = before} serves cmd service result e) =
      Serves-lib_loader hub before serves
  Serves-lib_loader hub now (works {now = before} serves name code h) =
      Serves-lib_loader hub before serves
