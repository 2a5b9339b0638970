-- ===== src/Tests/ProgramTests.antt =====
-- The whole program: the theorems at a concrete run. The hub starts without a config file, the CLI
-- loads and applies a plan, and the agent of the plan asks for a handle on the plan's endpoint.
use mavlink_hub.Base.{◌≡◌, refl, ap, true, none, some, [], ◌∷◌}
use mavlink_hub.Base.Dict
use mavlink_hub.Base.Dict.{lookup}
use mavlink_hub.Sdk.{AgentState, Calls, MavlinkEndpointUser, done, write_message, active}
use mavlink_hub.Manager.Types.{best_effort}
use mavlink_hub.Manager.State.{Manager, EndpointEntry, empty_manager}
use mavlink_hub.Manager.Handles
use mavlink_hub.Manager.Requests.{request, perform}
use mavlink_hub.Manager.Endpoints.{add_mavlink_endpoint, connect_mavlink_endpoint}
use mavlink_hub.Manager.Users.{create_mavlink_endpoint_user}
use mavlink_hub.Registry.User
use mavlink_hub.Manager.Plan.{
  validate_plan, validate_endpoints, validate_endpoint, validate_agents, validate_agent,
  name_availability, endpoint_config_validation, agent_config_validation, result_at,
  execute_endpoint, execute_agent,
}
use mavlink_hub.Manager.Agents.{add_agent, keep_agent, set_agent, start_agent}
use mavlink_hub.Manager.Frame.{has}
use mavlink_hub.Manager.Execute.{
  execute_plan, execute_endpoints, execute_agents, discards, check_discard,
}
use mavlink_hub.Manager.Grows.{Keeps}
use mavlink_hub.Manager.Destroy.{destroy_agents}
use mavlink_hub.Manager.Identity.{IsIdentified}
use mavlink_hub.Json.Api.{JsonApi, just}
use mavlink_hub.Json.Decode.{
  string_to_user_plan, json_to_user_plan, read_policy, read_endpoints, read_agents,
  json_to_endpoint_list, json_to_agent_list, or_empty, agent_element, endpoint_element,
  read_elements, read_config,
}
use mavlink_hub.Service.Commands.{load_plan_from_json_text, apply_current_plan}
use mavlink_hub.Service.Execute.{
  AppServiceCommand, AppService, CommandResult, execute_command, run_case, keep_plan, apply_plan,
  answer,
}
use mavlink_hub.Startup.{
  Hub, registries, load_libs, load_agent_libs, load_transport_libs, apply_config, after_own_libs,
  run_startup_plan,
}
use mavlink_hub.Startup.Args.{given, parse_args}
use mavlink_hub.Startup.Begin.{begin_run, goes_on, apply_parsed, keep_hub}
use mavlink_hub.Startup.Running.{manager_of}
use mavlink_hub.Startup.Program.{
  Serves, begun, answers, works, with_manager, registered_stays, handle_stays_live,
}
use mavlink_hub.Tests.Fixtures.{demo_sdk, demo_registry, good_plan}
use mavlink_hub.Tests.LoaderTests.{libraries, loader}
use mavlink_hub.Tests.Documents.{demo_json, good_document}
use mavlink_hub.Tests.ServiceTests.{outside}

abbrev J : JsonApi
J = demo_json (λ s. good_document)

abbrev initial : Hub J libraries outside demo_registry
initial = record {
  lib_loader = record loader { transport_registry = ("udp", "over UDP") ∷ [] };
  app_service = record { current_plan = none; manager = empty_manager demo_sdk };
}

starts :
    begin_run J libraries outside demo_registry some (given "") initial ≡ some (goes_on initial)
unfolding begin_run parse_args apply_parsed keep_hub apply_config load_libs load_agent_libs
    load_transport_libs after_own_libs run_startup_plan
starts = refl

decoded : string_to_user_plan J best_effort "the plan" ≡ just good_plan
unfolding string_to_user_plan json_to_user_plan read_policy read_endpoints read_agents
    json_to_endpoint_list json_to_agent_list or_empty agent_element endpoint_element read_elements
    Dict.insert read_config
decoded = refl

-- The plan is loaded and applied.
abbrev loaded : AppService demo_sdk
loaded = record { current_plan = some good_plan; manager = empty_manager demo_sdk }

abbrev load : AppServiceCommand
load = record { cmd_type = load_plan_from_json_text; payload = "the plan" }

load_answered :
    execute_command demo_sdk J outside
      (registries J libraries outside demo_registry initial)
      load
      initial.app_service
    ≡ some (loaded, answer true "[AppService]: Plan is loaded" "")
unfolding execute_command run_case keep_plan
load_answered = ap (keep_plan demo_sdk J initial.app_service) decoded

abbrev with_plan : Hub J libraries outside demo_registry
with_plan = record initial { app_service = loaded }

abbrev apply : AppServiceCommand
apply = record { cmd_type = apply_current_plan; payload = "" }

abbrev applied : AppService demo_sdk × CommandResult
applied = apply_plan demo_sdk J (registries J libraries outside demo_registry with_plan) loaded

apply_answered :
    execute_command demo_sdk J outside
      (registries J libraries outside demo_registry with_plan)
      apply
      loaded
    ≡ some applied
unfolding execute_command run_case
apply_answered = refl

abbrev now : Hub J libraries outside demo_registry
now = record with_plan { app_service = applied.0 }

now-Serves : Serves J libraries outside demo_registry initial now
now-Serves =
    answers (answers begun load loaded _ load_answered) apply applied.0 applied.1 apply_answered

-- The agent "log" asks for "radio", and writes to it.
abbrev radio_handle : MavlinkEndpointUser
radio_handle = record { endpoint = 0; endpoint_name = "radio"; user_name = "log" }

given_handle :
    (request demo_sdk "log" "radio" (manager_of J libraries outside demo_registry now)).1
    ≡ some radio_handle
unfolding request create_mavlink_endpoint_user apply_plan execute_plan execute_endpoints
    execute_agents execute_endpoint execute_agent add_mavlink_endpoint connect_mavlink_endpoint
    add_agent keep_agent start_agent perform lookup Dict.emplace Dict.insert validate_plan
    validate_endpoints validate_endpoint validate_agents validate_agent name_availability
    endpoint_config_validation agent_config_validation discards check_discard result_at User.at
given_handle = refl

abbrev held : Hub J libraries outside demo_registry
held =
    with_manager J libraries outside demo_registry now
      (request demo_sdk "log" "radio" (manager_of J libraries outside demo_registry now)).0

abbrev writing : Calls demo_sdk AgentState
writing = write_message radio_handle "heartbeat" (λ sent. done active)

abbrev later : Hub J libraries outside demo_registry
later =
    let ran = perform demo_sdk "log" writing (manager_of J libraries outside demo_registry held) in
    with_manager J libraries outside demo_registry held (set_agent demo_sdk "log" ran.1 ran.0)

log_is_there : has "log" (manager_of J libraries outside demo_registry held).agents ≡ true
unfolding request create_mavlink_endpoint_user apply_plan execute_plan execute_endpoints
    execute_agents execute_endpoint execute_agent add_mavlink_endpoint connect_mavlink_endpoint
    add_agent keep_agent start_agent perform lookup Dict.emplace Dict.insert validate_plan
    validate_endpoints validate_endpoint validate_agents validate_agent name_availability
    endpoint_config_validation agent_config_validation discards check_discard result_at User.at
log_is_there = refl

later-Serves : Serves J libraries outside demo_registry held later
later-Serves = works begun "log" writing log_is_there

-- The end of the program: the agent has been destroyed.
abbrev ended : Manager demo_sdk
ended =
    destroy_agents demo_sdk (("log", active) ∷ [])
      (manager_of J libraries outside demo_registry later)

handle_stays_live_example :
    (entry : EndpointEntry demo_sdk) × ((Handles.lock demo_sdk 0 ended.endpoint_db
        ≡ some ("radio", entry))
      × (lookup "radio" ended.endpoint_db ≡ some entry))
handle_stays_live_example =
    handle_stays_live J libraries outside demo_registry some (given "") "log" "radio" radio_handle
      initial initial now later (("log", active) ∷ []) refl starts now-Serves given_handle
      later-Serves

reapplied_answered :
    execute_command demo_sdk J outside
      (registries J libraries outside demo_registry now)
      load
      now.app_service
    ≡ some (
      record now.app_service { current_plan = some good_plan },
      answer true "[AppService]: Plan is loaded" "",
    )
unfolding execute_command run_case keep_plan
reapplied_answered = ap (keep_plan demo_sdk J now.app_service) decoded

abbrev reloaded : Hub J libraries outside demo_registry
reloaded = record now { app_service = record now.app_service { current_plan = some good_plan } }

registered_stays_example :
    IsIdentified demo_sdk (manager_of J libraries outside demo_registry now)
    × Keeps demo_sdk
        (manager_of J libraries outside demo_registry now)
        (manager_of J libraries outside demo_registry reloaded)
registered_stays_example =
    registered_stays J libraries outside demo_registry some (given "") initial initial now reloaded
      refl starts now-Serves (answers begun load reloaded.app_service _ reapplied_answered)
