-- ===== src/Tests/ServiceTests.antt =====
-- src/app/app_service, src/app/startup: the theorems at concrete inputs.
use mavlink_hub.Base.{
  String, arith, eq_iff, ◌≡◌, refl, ap, ◌≢◌, inr, true, false, ◌==◌, none, some, [], ◌∷◌,
  if◌then◌else◌, is_some,
}
use mavlink_hub.Base.Dict.{Dict, lookup, emplace, lookup-emplace}
use mavlink_hub.Common.{fresh, OperationResult}
use mavlink_hub.Registry.User
use mavlink_hub.Manager.Types.{best_effort}
use mavlink_hub.Manager.Discard.{HasInvalid}
use mavlink_hub.Json.Api.{just}
use mavlink_hub.Json.Decode.{string_to_user_plan}
use mavlink_hub.Json.Config.{AppConfig}
use mavlink_hub.Loader.{LibLoader, load_agent_lib}
use mavlink_hub.Service.Commands.{apply_current_plan, load_plan_from_json_text}
use mavlink_hub.Service.Execute.{
  AppServiceCommand, AppService, CommandResult, Outside, execute_command, run_case, apply_plan,
  keep_plan, answer,
}
use mavlink_hub.Service.Laws.{
  execute_commands, load_and_apply, execute_command_failed, load_and_apply_discarded,
}
use mavlink_hub.Startup.{Hub, load_libs, apply_config}
use mavlink_hub.Startup.Laws.{AllOf}
use mavlink_hub.Startup.Loaded.{AgentIsLoaded, TransportIsLoaded, apply_config_loads}
use mavlink_hub.Loader.Kept.{KeepsTransports}
use mavlink_hub.Tests.Fixtures.{demo_sdk, demo_registry, demo_registries, demo_agent, hub}
use mavlink_hub.Tests.JsonTests.{J, read_plan, decoded}
use mavlink_hub.Tests.LoaderTests.{libraries, camera_lib, loader}

abbrev pub outside : Outside
outside = record {
  open_file = λ path. if path == "plan.json" then some "the plan" else none;
  uninit_policy = best_effort;
  uninit_success = false;
  uninit_apply = false;
}

abbrev pub service : AppService demo_sdk
service = record { current_plan = none; manager = hub }

abbrev apply : AppServiceCommand
apply = record { cmd_type = apply_current_plan; payload = "" }

abbrev refusal : CommandResult
refusal = answer false "[AppService]: Plan is not applied because there is no plan loaded" ""

apply_refused :
    execute_command demo_sdk J outside demo_registries apply service ≡ some (service, refusal)
unfolding execute_command run_case apply_plan
apply_refused = refl

execute_command_failed_example : service ≡ service
execute_command_failed_example =
    execute_command_failed demo_sdk J outside demo_registries apply service service refusal
      apply_refused refl

abbrev load : AppServiceCommand
load = record { cmd_type = load_plan_from_json_text; payload = "the plan" }

abbrev loaded_service : AppService demo_sdk
loaded_service = record { current_plan = some read_plan; manager = hub }

text_decoded : string_to_user_plan J best_effort "the plan" ≡ just read_plan
unfolding string_to_user_plan
text_decoded = decoded

load_answered :
    execute_command demo_sdk J outside demo_registries load service
    ≡ some (loaded_service, answer true "[AppService]: Plan is loaded" "")
unfolding execute_command run_case keep_plan
load_answered = ap (keep_plan demo_sdk J service) text_decoded

load≢apply : load_plan_from_json_text ≢ apply_current_plan
load≢apply e = cc

read_plan-HasInvalid : HasInvalid demo_sdk demo_registries read_plan hub
unfolding lookup User.at
read_plan-HasInvalid =
    inr ("log", demo_agent "camera", refl, λ (free, (definition, config, messages, at, parsed)). cc)

load_and_apply_discarded_example :
    execute_commands demo_sdk J outside demo_registries (load_and_apply "the plan") service
    ≡ some (record { current_plan = some read_plan; manager = hub })
load_and_apply_discarded_example =
    load_and_apply_discarded demo_sdk J outside demo_registries "the plan" read_plan service
      text_decoded refl read_plan-HasInvalid

-- Startup

abbrev config : AppConfig
config = record {
  agent_lib_list = ("camera", camera_lib) ∷ [];
  transport_lib_list = [];
  path_to_extra_lib_list = "";
  path_to_startup_user_plan = "";
  apply_user_plan_on_startup = true;
}

abbrev pub start : Hub J libraries outside demo_registry
start = record { lib_loader = loader; app_service = service }

abbrev libs : LibLoader libraries × OperationResult
libs = load_libs J libraries outside demo_registry config (loader, fresh)

abbrev started : Hub J libraries outside demo_registry
started = record start { lib_loader = libs.0 }

start_applied : apply_config J libraries outside demo_registry config start ≡ some (started, libs.1)
unfolding apply_config
start_applied = refl

start_succeeded : libs.1.success ≡ true
unfolding load_libs load_agent_lib
start_succeeded = refl

emplaced :
    (name : String) (d : String) (m : Dict String) → is_some (lookup name (emplace name d m)) ≡ true
emplaced name d m = ground (arith, eq_iff name name, lookup-emplace name name d m)

kept_there :
    (name j : String) (d : String) (m : Dict String)
    → is_some (lookup j m) ≡ true
    → is_some (lookup j (emplace name d m)) ≡ true
kept_there name j d m h = ground (arith, h, eq_iff name j, lookup-emplace name j d m)

demo-KeepsTransports : KeepsTransports demo_sdk
demo-KeepsTransports = record {
  added = λ registry name d. emplaced name d registry;
  kept = λ registry name d j h. kept_there name j d registry h;
}

apply_config_loads_example :
    (AllOf J libraries outside demo_registry
      (AgentIsLoaded J libraries outside demo_registry started.lib_loader)
      config.agent_lib_list)
    × (AllOf J libraries outside demo_registry
        (TransportIsLoaded J libraries outside demo_registry started.lib_loader)
        config.transport_lib_list)
    × (config.path_to_startup_user_plan ≢ "" → is_some started.app_service.current_plan ≡ true)
apply_config_loads_example =
    apply_config_loads J libraries outside demo_registry demo-KeepsTransports config start started
      libs.1 start_applied start_succeeded
