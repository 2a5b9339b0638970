-- ===== src/Tests/CliTests.antt =====
-- src/app/ui_handler: the theorems at concrete inputs.
use mavlink_hub.Base.{none, ◌<>◌, ◌⊎◌, false, String, ◌≡◌, refl, ◌==◌, true, some, if◌then◌else◌}
use mavlink_hub.Base.Dict
use mavlink_hub.Base.Dict.{lookup}
use mavlink_hub.Base.Count.{pos}
use mavlink_hub.Manager.Queries
use mavlink_hub.Json.Api.{JsonApi}
use mavlink_hub.Json.Encode.{
  agent_state_to_string, endpoint_state_to_string, agent_status_document, endpoint_status_document,
  agent_status_list_to_json_string, endpoint_status_list_to_json_string, push_agent_statuses,
  push_endpoint_statuses, agent_list_to_json_string,
}
use mavlink_hub.Json.RoundTrip.{texts}
use mavlink_hub.Service.Execute.{
  AppServiceCommand, AppService, execute_command, run_case, answer, CommandResult,
}
use mavlink_hub.Service.Commands.{get_agent_list, AppServiceCommandDescriptor}
use mavlink_hub.Cli.Controller.{
  CliUiController, new_controller, rows_of, update_overview_data, running, answered, store_result,
  execute_current_command,
}
use mavlink_hub.Cli.Run.{clears, Session, Reach, here, next, commits, executes, works, reports}
use mavlink_hub.Cli.Menu.{IsGuarded, is_busy}
use mavlink_hub.Cli.Labelled.{IsListed}
use mavlink_hub.Cli.Labels.{idle_result_named}
use mavlink_hub.Sdk.{Calls, AgentState, active, request_mavlink_endpoint, done}
use mavlink_hub.Manager.Frame.{has}
use mavlink_hub.Manager.Requests.{perform}
use mavlink_hub.Manager.Agents.{set_agent}
use mavlink_hub.Cli.Operation.{
  Operates, opened, interacts, agent_works, SameHoldings, Operates-SameHoldings,
}
use mavlink_hub.Cli.View.{Ftxui}
use mavlink_hub.Cli.Events
use mavlink_hub.Cli.Events.{press}
use mavlink_hub.Cli.Screen.{action_status}
use mavlink_hub.Cli.ScreenLaws.{action_status_lem}
use mavlink_hub.Cli.Laws.{update_overview_data_lem}
use mavlink_hub.Tests.Fixtures.{demo_sdk, demo_registries, hub}
use mavlink_hub.Tests.Documents.{Document, demo_json, demo_json-IsLawful, empty}
use mavlink_hub.Tests.ServiceTests.{outside, service}

-- A parser that gives back the two status documents of the hub.
abbrev parsed : String → Document
parsed s =
    if s == "agent_status_list"
    then agent_status_document (demo_json (λ t. empty)) (Queries.get_agent_state_all demo_sdk hub)
    else endpoint_status_document (demo_json (λ t. empty))
        (Queries.get_mavlink_endpoint_state_all demo_sdk hub)

abbrev J : JsonApi
J = demo_json parsed

agents_parsed :
    J.parse (agent_status_list_to_json_string J (Queries.get_agent_state_all demo_sdk hub))
    ≡ some (agent_status_document J (Queries.get_agent_state_all demo_sdk hub))
unfolding agent_status_list_to_json_string agent_status_document push_agent_statuses
    Queries.get_agent_state_all Dict.insert
agents_parsed = refl

endpoints_parsed :
    J.parse
      (endpoint_status_list_to_json_string J (Queries.get_mavlink_endpoint_state_all demo_sdk hub))
    ≡ some (endpoint_status_document J (Queries.get_mavlink_endpoint_state_all demo_sdk hub))
unfolding endpoint_status_list_to_json_string endpoint_status_document push_endpoint_statuses
    Queries.get_mavlink_endpoint_state_all Dict.insert
endpoints_parsed = refl

update_overview_data_lem_example :
    update_overview_data demo_sdk J outside demo_registries service new_controller
    ≡ some (
      service,
      record new_controller {
        agent_rows =
            rows_of (texts agent_state_to_string (Queries.get_agent_state_all demo_sdk hub));
        endpoint_rows =
            rows_of (
              texts endpoint_state_to_string (Queries.get_mavlink_endpoint_state_all demo_sdk hub));
      },
    )
update_overview_data_lem_example =
    update_overview_data_lem demo_sdk J outside demo_registries (demo_json-IsLawful parsed) service
      new_controller agents_parsed endpoints_parsed

-- The fourth entry of the menu is committed and executed.
abbrev committed : CliUiController
committed = record new_controller { committed_command = pos 3 }

abbrev command : AppServiceCommand
command = record { cmd_type = get_agent_list; payload = "" }

abbrev agent_names : CommandResult
agent_names =
    answer true "[AppService]: Agent list has been retrieved."
      (agent_list_to_json_string J (Queries.get_agent_list demo_sdk hub))

launched : (execute_current_command committed).execute_thread ≡ running command
unfolding execute_current_command
launched = refl

served :
    execute_command demo_sdk J outside demo_registries command service ≡ some (service, agent_names)
unfolding execute_command run_case
served = refl

abbrev worked : CliUiController
worked = record (execute_current_command committed) { execute_thread = answered agent_names }

abbrev begun : Session demo_sdk
begun = record { app_service = service; controller = new_controller }

abbrev shown : Session demo_sdk
shown = record { app_service = service; controller = store_result agent_names worked }

run : Reach demo_sdk J outside demo_registries begun shown
run =
    next
      (next (next (next here (commits service new_controller (pos 3))) (executes service committed))
        (works service service (execute_current_command committed) command agent_names launched
          served))
      (reports service worked agent_names refl)

new_controller-IsGuarded : IsGuarded new_controller
new_controller-IsGuarded = record { busy = refl; reads = tt }

-- The command is carried out while the agent "old" runs code that asks for a handle.
abbrev asking : Calls demo_sdk AgentState
asking = request_mavlink_endpoint "serial" (λ handle. done active)

old_is_there : has "old" hub.agents ≡ true
unfolding lookup
old_is_there = refl

abbrev worked_on : AppService demo_sdk
worked_on = record service {
  manager = let ran = perform demo_sdk "old" asking hub in set_agent demo_sdk "old" ran.1 ran.0;
}

operated :
    Operates J outside demo_registries begun
      (record { app_service = worked_on; controller = record committed { command_result = none } })
operated =
    interacts
      (agent_works (interacts opened (commits service new_controller (pos 3))) "old" asking
        old_is_there)
      (clears worked_on committed)

Operates-SameHoldings_example : SameHoldings service worked_on
Operates-SameHoldings_example =
    Operates-SameHoldings J outside demo_registries service
      (record { app_service = worked_on; controller = record committed { command_result = none } })
      operated

-- A terminal whose elements are their texts.
abbrev plain : Ftxui
plain = record {
  Element = String;
  Color = String;
  text = λ s. s;
  separator = "";
  filler = "";
  vbox = λ elements. "";
  hbox = λ elements. "";
  bold = λ e. e;
  dim = λ e. e;
  center = λ e. e;
  border = λ e. e;
  flex = λ e. e;
  notflex = λ e. e;
  frame = λ e. e;
  vscroll_indicator = λ e. e;
  inverted = λ e. e;
  bgcolor = λ c e. c <> e;
  color = λ c e. e;
  size_width_greater_than = λ n e. e;
  orange1 = "orange: ";
  green = "green: ";
  black = "";
  white = "";
  menu = λ entries selected. "";
  vertical = λ elements. "";
  input = λ s hint. s;
  resizable_split_left = λ main back size. "";
  resizable_split_right = λ main back size. "";
}

action_status_lem_example :
    ((is_busy shown.controller.execute_thread ≡ true)
      × (action_status plain shown.controller ≡ "orange: Executing...")
      × (press Events.execute_command shown.controller ≡ shown.controller))
    ⊎ ((is_busy shown.controller.execute_thread ≡ false)
        × (action_status plain shown.controller ≡ "green: Ready"))
action_status_lem_example = action_status_lem plain J outside demo_registries service shown run

idle_result_named_example :
    (d : AppServiceCommandDescriptor) × (payload : String) × (s' : AppService demo_sdk) × IsListed d
    × (d.name ≡ shown.controller.executed_command)
    × (execute_command demo_sdk J outside demo_registries
          (record { cmd_type = d.type; payload = payload })
          service
        ≡ some (s', agent_names))
unfolding store_result
idle_result_named_example =
    idle_result_named demo_sdk J outside demo_registries service shown agent_names run refl refl
