-- ===== src/Tests/LibraryTests.antt =====
-- The plugin libraries of a whole run: the hub is started with a config file that names one library,
-- and the reading of that file.
use mavlink_hub.Base.{◌↔◌, ◌∷◌, ◌+◌, ◌≤◌, ◌≡◌, refl, true, none, some, List, []}
use mavlink_hub.Base.Dict
use mavlink_hub.Loader.{load_agent_lib, register_agent}
use mavlink_hub.Loader.Balance.{opens, closes, held, Load, load_all, all_lost}
use mavlink_hub.Json.Api.{JsonApi, Decoded}
use mavlink_hub.Json.Config.{
  AppConfig, json_to_lib_list, read_lib_entries, json_to_app_config, text_to_app_config,
}
use mavlink_hub.Json.ConfigLaws.{IsConfigOf, text_to_app_config_iff}
use mavlink_hub.Manager.State.{empty_manager}
use mavlink_hub.Startup.{
  Hub, load_libs, load_agent_libs, load_transport_libs, apply_config, after_own_libs,
  run_startup_plan,
}
use mavlink_hub.Startup.Args.{given, parse_args, open_config_file, read_config_file, keep_config}
use mavlink_hub.Startup.Begin.{begin_run, goes_on, apply_parsed, keep_hub}
use mavlink_hub.Startup.Program.{begun}
use mavlink_hub.Startup.Teardown.{destroy_app}
use mavlink_hub.Startup.Mapped.{libraries_stay_open}
use mavlink_hub.Tests.Fixtures.{demo_sdk, demo_registry, demo_memory}
use mavlink_hub.Tests.LoaderTests.{libraries, camera_lib}
use mavlink_hub.Tests.Documents.{demo_json, Document, empty, field, snoc, nil}
use mavlink_hub.Tests.JsonTests.{lib_document}
use mavlink_hub.Tests.ServiceTests.{outside}

abbrev config_document : Document
config_document = field empty "agent_lib_list" (snoc nil (lib_document "liblog.so"))

abbrev J : JsonApi
J = demo_json (λ s. config_document)

abbrev initial : Hub J libraries outside demo_registry
initial = record {
  lib_loader = record {
    agent_lib_handles = [];
    transport_lib_handles = [];
    memory = demo_memory;
    transport_registry = [];
    dl_calls = [];
  };
  app_service = record { current_plan = none; manager = empty_manager demo_sdk };
}

abbrev started : Hub J libraries outside demo_registry
started = record initial {
  lib_loader = (load_agent_lib libraries demo_registry camera_lib initial.lib_loader).0;
}

starts :
    begin_run J libraries outside demo_registry some (given "plan.json") initial
    ≡ some (goes_on started)
unfolding begin_run parse_args open_config_file read_config_file keep_config text_to_app_config
    json_to_app_config apply_parsed keep_hub apply_config load_libs load_agent_libs
    load_transport_libs after_own_libs run_startup_plan json_to_lib_list read_lib_entries
    Dict.insert Dict.emplace Dict.lookup
starts = refl

libraries_stay_open_example :
    let l = started.lib_loader in
    let calls = (destroy_app J libraries outside demo_registry started).1 in
    (held (λ handle. true) l.agent_lib_handles
        + held (λ handle. true) l.transport_lib_handles
        + closes (λ handle. true) l.dl_calls
      ≤ opens (λ handle. true) l.dl_calls)
    × ((loads : List Load) × (l ≡ load_all libraries demo_registry loads initial.lib_loader)
        × (opens (λ handle. true) calls
            ≡ closes (λ handle. true) calls
              + all_lost libraries (λ handle. true) demo_registry loads initial.lib_loader))
libraries_stay_open_example =
    libraries_stay_open J libraries outside demo_registry some (given "plan.json") (λ handle. true)
      initial started started refl refl refl starts begun

-- The one library is open.
one_open : held (λ handle. true) started.lib_loader.agent_lib_handles ≡ 1
unfolding load_agent_lib register_agent held Dict.emplace Dict.insert Dict.lookup
one_open = refl

abbrev one_library : AppConfig
one_library = record {
  agent_lib_list = ("camera", camera_lib) ∷ [];
  transport_lib_list = [];
  path_to_extra_lib_list = "";
  path_to_startup_user_plan = "";
  apply_user_plan_on_startup = true;
}

text_to_app_config_iff_example :
    (text_to_app_config J true "hub.json" ≡ Decoded.just one_library)
    ↔ ((j : J.Json) × (J.parse "hub.json" ≡ some j) × IsConfigOf J true j one_library)
text_to_app_config_iff_example = text_to_app_config_iff J true "hub.json" one_library

-- The text reads as that config.
one_library_read : text_to_app_config J true "hub.json" ≡ Decoded.just one_library
unfolding text_to_app_config json_to_app_config json_to_lib_list read_lib_entries Dict.insert
    Dict.lookup
one_library_read = refl
