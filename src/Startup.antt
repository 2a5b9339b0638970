-- ===== src/Startup.antt =====
-- src/app/startup/AppConfigurator.cpp, `applyConfig`, on the parts that src/app/App.cpp puts together:
-- the loader and the service, whose manager looks into the registries that the loader fills.
pub mod Laws
pub mod Args
pub mod Begin
pub mod Running
pub mod Program
pub mod Teardown
pub mod Libraries
pub mod Mapped
pub mod Loaded
use mavlink_hub.Base.{
  String, ◌<>◌, ◌==◌, Bool, true, false, Option, none, some, [], ◌∷◌, if◌then◌else◌,
}
use mavlink_hub.Base.Dict.{Dict}
use mavlink_hub.Common.{OperationResult, fresh, merge, report_of}
use mavlink_hub.Sdk.{Sdk}
use mavlink_hub.Registry.Admin.{AgentRegistry, create_user}
use mavlink_hub.Manager.State.{Registries}
use mavlink_hub.Loader.{DynamicLibraries, LibLoader, LibInfo, load_agent_lib, load_transport_lib}
use mavlink_hub.Json.Api.{JsonApi, Decoded, thrown, nothing, just}
use mavlink_hub.Json.Config.{AppConfig, text_to_app_config}
use mavlink_hub.Service.Commands.{load_plan_from_path, apply_current_plan}
use mavlink_hub.Service.Execute.{CommandResult, AppService, Response, Outside, execute_command}

module _ {S : Sdk} (J : JsonApi) (L : DynamicLibraries S) (outside : Outside)
    (registry : AgentRegistry) where
  pub record Hub : Type 0 where
    pub lib_loader : LibLoader L
    pub app_service : AppService S

  -- What the manager's references lead to: the views of the loader's registries.
  abbrev pub registries : Hub → Registries S
  registries hub = record {
    agent_registry = create_user registry;
    memory = hub.lib_loader.memory;
    transport_registry = hub.lib_loader.transport_registry;
  }

  -- The loops over the library lists, onto the result so far.
  unfoldable pub load_agent_libs :
      Dict LibInfo → LibLoader L × OperationResult → LibLoader L × OperationResult
  load_agent_libs [] (l, result) = (l, result)
  load_agent_libs ((name, lib_info) ∷ list) (l, result) =
      let loaded = load_agent_lib L registry lib_info l in
      load_agent_libs list (loaded.0, merge result loaded.1)

  unfoldable pub load_transport_libs :
      Dict LibInfo → LibLoader L × OperationResult → LibLoader L × OperationResult
  load_transport_libs [] (l, result) = (l, result)
  load_transport_libs ((name, lib_info) ∷ list) (l, result) =
      let loaded = load_transport_lib L lib_info l in
      load_transport_libs list (loaded.0, merge result loaded.1)

  unfoldable pub load_libs :
      AppConfig → LibLoader L × OperationResult → LibLoader L × OperationResult
  unfolding load_agent_libs load_transport_libs
  load_libs config loaded =
      load_transport_libs config.transport_lib_list (load_agent_libs config.agent_lib_list loaded)

  abbrev as_operation_result : CommandResult → OperationResult
  as_operation_result r = record { success = r.success; messages = r.message }

  -- `none` is an exception that leaves `applyConfig`.
  abbrev pub Applied : Type 0
  Applied = Option (Hub × OperationResult)

  -- What becomes of the command's answer: the service that it leaves, and its result merged.
  unfoldable pub merge_answer : Hub → OperationResult → Response S J → Applied
  merge_answer hub result none = none
  merge_answer hub result (some (service, answer)) =
      some (record hub { app_service = service }, merge result (as_operation_result answer))

  -- The last `if` of the startup plan: apply it, when the flag is set and the load succeeded.
  unfoldable pub apply_startup_plan : Bool → Hub → Bool → OperationResult → Applied
  unfolding merge_answer
  apply_startup_plan true hub true result = merge_answer hub result (
      execute_command S J outside (registries hub)
        (record { cmd_type = apply_current_plan; payload = "" }) hub.app_service)
  apply_startup_plan apply hub loaded result = some (hub, result)

  -- What follows the load command of the startup plan.
  unfoldable pub after_load : AppConfig → Hub → OperationResult → Response S J → Applied
  unfolding apply_startup_plan
  after_load config hub result none = none
  after_load config hub result (some (service, load_result)) =
      apply_startup_plan config.apply_user_plan_on_startup (record hub { app_service = service })
        load_result.success (merge result (as_operation_result load_result))

  unfoldable pub run_startup_plan : AppConfig → Hub → OperationResult → Applied
  unfolding after_load
  run_startup_plan config hub result =
      if config.path_to_startup_user_plan == ""
      then some (hub, result)
      else after_load config hub result (
          execute_command S J outside (registries hub)
            (record { cmd_type = load_plan_from_path; payload = config.path_to_startup_user_plan })
            hub.app_service)

  -- The libraries of the extra file are loaded and the startup plan follows, when it can be read.
  unfoldable pub load_extra_libs : AppConfig → Hub → Decoded AppConfig → OperationResult → Applied
  unfolding load_libs run_startup_plan
  load_extra_libs config hub thrown result = none
  load_extra_libs config hub nothing result = some (
    hub,
    merge result (
        report_of false (
          "[App]: path_to_extra_lib_list is set to [" <> config.path_to_extra_lib_list
          <> "], but it cannot be parsed properly.")),
  )
  load_extra_libs config hub (just extra_libs) result =
      let loaded = load_libs extra_libs (hub.lib_loader, result) in
      run_startup_plan config (record hub { lib_loader = loaded.0 }) loaded.1

  -- The block of `path_to_extra_lib_list`, whose two early returns end `applyConfig`.
  unfoldable pub open_extra_libs : AppConfig → Hub → OperationResult → Option String → Applied
  unfolding load_extra_libs
  open_extra_libs config hub result none = some (
    hub,
    merge result (
        report_of false (
          "[App]: path_to_extra_lib_list is set to [" <> config.path_to_extra_lib_list
          <> "], but it cannot be found.")),
  )
  open_extra_libs config hub result (some text) =
      load_extra_libs config hub (text_to_app_config J outside.uninit_apply text) result

  -- What follows the config's own libraries.
  unfoldable pub after_own_libs : AppConfig → Hub → OperationResult → Applied
  unfolding open_extra_libs run_startup_plan
  after_own_libs config hub result =
      if config.path_to_extra_lib_list == ""
      then run_startup_plan config hub result
      else open_extra_libs config hub result (outside.open_file config.path_to_extra_lib_list)

  unfoldable pub apply_config : AppConfig → Hub → Applied
  unfolding load_libs after_own_libs
  apply_config config hub =
      let loaded = load_libs config (hub.lib_loader, fresh) in
      after_own_libs config (record hub { lib_loader = loaded.0 }) loaded.1
