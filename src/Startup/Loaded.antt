-- ===== src/Startup/Loaded.antt =====
-- What a start of src/app/startup/AppConfigurator.cpp that succeeds has put into the loader and the
-- registries.
use mavlink_hub.Base.{◌≡◌, sym, subst, ◌≢◌, true, is_some, some, [], ◌∷◌}
use mavlink_hub.Base.Dict.{Dict}
use mavlink_hub.Common.{OperationResult, fresh}
use mavlink_hub.Sdk.{Sdk}
use mavlink_hub.Registry.Admin.{AgentRegistry}
use mavlink_hub.Loader.{DynamicLibraries, LibLoader, LibInfo, load_agent_lib, load_transport_lib}
use mavlink_hub.Loader.Laws.{load_agent_lib_iff, load_transport_lib_iff}
use mavlink_hub.Json.Api.{JsonApi}
use mavlink_hub.Json.Config.{AppConfig}
use mavlink_hub.Service.Execute.{Outside}
use mavlink_hub.Service.Laws.{Answers-elim}
use mavlink_hub.Startup.{Hub, load_agent_libs, load_transport_libs, load_libs, apply_config}
use mavlink_hub.Startup.Laws.{
  AgentIsProvided, TransportIsProvided, AllOf, and_true, load_agent_libs-success,
  load_transport_libs-success, apply_config_succeeded,
}
use mavlink_hub.Startup.Libraries.{
  LoadedFrom, HubLoaded, load_agent_libs-LoadedFrom, load_transport_libs-LoadedFrom,
  after_own_libs-HubLoaded,
}
use mavlink_hub.Loader.Kept.{
  KeepsTransports, HasAgentLib, HasTransportLib, load_agent_lib-HasAgentLib, load_all-keeps_agents,
  load_transport_lib-HasTransportLib, load_all-keeps_transports,
}

AllOf-map :
    {S : Sdk} (J : JsonApi) (L : DynamicLibraries S) (outside : Outside) (registry : AgentRegistry)
    (P Q : LibInfo → Type 0) (list : Dict LibInfo)
    → ((info : LibInfo) → P info → Q info)
    → AllOf J L outside registry P list
    → AllOf J L outside registry Q list
AllOf-map J L outside registry P Q [] f all = tt
AllOf-map J L outside registry P Q ((name, info) ∷ list) f all =
    (f info all.0, AllOf-map J L outside registry P Q list f all.1)

module _ {S : Sdk} (J : JsonApi) (L : DynamicLibraries S) (outside : Outside)
    (registry : AgentRegistry) where
  -- The library provides a definition, and is loaded: there is a handle on it, or one that was there
  -- before, and a definition, under its name.
  abbrev pub AgentIsLoaded : LibLoader L → LibInfo → Type 0
  AgentIsLoaded l info =
      AgentIsProvided J L outside registry info × HasAgentLib L registry l info.name

  abbrev pub TransportIsLoaded : LibLoader L → LibInfo → Type 0
  TransportIsLoaded l info =
      TransportIsProvided J L outside registry info × HasTransportLib L registry l info.name

  AgentIsLoaded-kept :
      (l m : LibLoader L)
      → LoadedFrom J L outside registry l m
      → (info : LibInfo) → AgentIsLoaded l info
      → AgentIsLoaded m info
  AgentIsLoaded-kept l m (loads, e) info (p, h) = (
    p,
    subst (λ n. HasAgentLib L registry n info.name) (sym e)
        (load_all-keeps_agents L registry loads l info.name h),
  )

  TransportIsLoaded-kept :
      KeepsTransports S
      → (l m : LibLoader L) → LoadedFrom J L outside registry l m
      → (info : LibInfo) → TransportIsLoaded l info
      → TransportIsLoaded m info
  TransportIsLoaded-kept k l m (loads, e) info (p, h) = (
    p,
    subst (λ n. HasTransportLib L registry n info.name) (sym e)
        (load_all-keeps_transports L registry k loads l info.name h),
  )

  load_agent_libs-AllOf :
      (list : Dict LibInfo) (l : LibLoader L) (result : OperationResult)
      → let after = load_agent_libs J L outside registry list (l, result) in
        after.1.success ≡ true → AllOf J L outside registry (AgentIsLoaded after.0) list
  unfolding load_agent_libs
  load_agent_libs-AllOf [] l result h = tt
  load_agent_libs-AllOf ((name, info) ∷ list) l result h =
      let loaded = load_agent_lib L registry info l in
      let so_far = load_agent_libs-success J L outside registry list loaded.0 _ h in
      let ok = (and_true result.success loaded.1.success so_far.0).1 in
      (
        AgentIsLoaded-kept loaded.0 _
            (load_agent_libs-LoadedFrom J L outside registry list loaded.0 _) info
            (
              (load_agent_lib_iff L info l registry).0 ok,
              load_agent_lib-HasAgentLib L registry info l ok,
            ),
        load_agent_libs-AllOf list loaded.0 _ h,
      )

  load_transport_libs-AllOf :
      KeepsTransports S
      → (list : Dict LibInfo) (l : LibLoader L) (result : OperationResult)
      → let after = load_transport_libs J L outside registry list (l, result) in
        after.1.success ≡ true → AllOf J L outside registry (TransportIsLoaded after.0) list
  unfolding load_transport_libs
  load_transport_libs-AllOf k [] l result h = tt
  load_transport_libs-AllOf k ((name, info) ∷ list) l result h =
      let loaded = load_transport_lib L info l in
      let so_far = load_transport_libs-success J L outside registry list loaded.0 _ h in
      let ok = (and_true result.success loaded.1.success so_far.0).1 in
      (
        TransportIsLoaded-kept k loaded.0 _
            (load_transport_libs-LoadedFrom J L outside registry list loaded.0 _) info
            (
              (load_transport_lib_iff L info l).0.0 ok,
              load_transport_lib-HasTransportLib L registry k info l ok,
            ),
        load_transport_libs-AllOf k list loaded.0 _ h,
      )

  load_libs-AllOf :
      KeepsTransports S
      → (config : AppConfig) (l : LibLoader L) (result : OperationResult)
      → let after = load_libs J L outside registry config (l, result) in
        after.1.success ≡ true
        → AllOf J L outside registry (AgentIsLoaded after.0) config.agent_lib_list
          × AllOf J L outside registry (TransportIsLoaded after.0) config.transport_lib_list
  unfolding load_libs
  load_libs-AllOf k config l result h =
      let agents = load_agent_libs J L outside registry config.agent_lib_list (l, result) in
      let ok = load_transport_libs-success J L outside registry config.transport_lib_list _ _ h in
      (
        AllOf-map J L outside registry (AgentIsLoaded agents.0) _ config.agent_lib_list
            (AgentIsLoaded-kept agents.0 _
              (load_transport_libs-LoadedFrom J L outside registry config.transport_lib_list _ _))
            (load_agent_libs-AllOf config.agent_lib_list l result ok.0),
        load_transport_libs-AllOf k config.transport_lib_list agents.0 agents.1 h,
      )

  -- After a start that succeeds: every agent library and every transport library of the config provides
  -- a definition, the loader holds a handle under its name, the hub's registry has a definition under
  -- that name, and where the config names a startup plan the service has a plan. An add to the
  -- transport registry keeps the types before and registers the new one.
  pub apply_config_loads :
      KeepsTransports S
      → (config : AppConfig) (hub hub' : Hub J L outside registry) (result : OperationResult)
      → apply_config J L outside registry config hub ≡ some (hub', result)
      → result.success ≡ true
      → (AllOf J L outside registry (AgentIsLoaded hub'.lib_loader) config.agent_lib_list)
        × (AllOf J L outside registry (TransportIsLoaded hub'.lib_loader) config.transport_lib_list)
        × (config.path_to_startup_user_plan ≢ "" → is_some hub'.app_service.current_plan ≡ true)
  unfolding apply_config
  apply_config_loads k config hub hub' result e h =
      let loaded = load_libs J L outside registry config (hub.lib_loader, fresh) in
      let succeeded = apply_config_succeeded J L outside registry config hub hub' result e h in
      let libs = load_libs-AllOf k config hub.lib_loader fresh succeeded.0 in
      let later =
        Answers-elim (HubLoaded J L outside registry loaded.0) _ (hub', result)
          (after_own_libs-HubLoaded J L outside registry config
            (record hub { lib_loader = loaded.0 }) loaded.1)
          e in
      (
        AllOf-map J L outside registry (AgentIsLoaded loaded.0) _ config.agent_lib_list
            (AgentIsLoaded-kept loaded.0 hub'.lib_loader later) libs.0,
        AllOf-map J L outside registry (TransportIsLoaded loaded.0) _ config.transport_lib_list
            (TransportIsLoaded-kept k loaded.0 hub'.lib_loader later) libs.1,
        succeeded.1,
      )
