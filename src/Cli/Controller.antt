-- ===== src/Cli/Controller.antt =====
-- src/app/ui_handler/CliUiController.cpp. The callback that redraws the screen is left out: it is not
-- part of the controller's state.
use Prim.Native.Nat.{compare, Ordering}
use mavlink_hub.Base.{
  ℕ, String, Bool, true, false, not, Option, none, some, List, [], ◌∷◌, if◌then◌else◌,
}
use mavlink_hub.Base.Count.{ℤ, pos, negsuc}
use mavlink_hub.Base.Dict.{Dict}
use mavlink_hub.Sdk.{Sdk}
use mavlink_hub.Manager.State.{Registries}
use mavlink_hub.Json.Api.{JsonApi}
use mavlink_hub.Json.Status.{
  agent_status_list_from_json_string, endpoint_status_list_from_json_string,
}
use mavlink_hub.Service.Commands.{
  AppServiceCommandType, AppServiceCommandDescriptor, commands, index, get_elem?, get_endpoint_list,
  get_endpoint_status, get_endpoint_status_all, get_agent_list, get_agent_status,
  get_agent_status_all, get_agent_report, get_agent_report_all,
}
use mavlink_hub.Service.Execute.{
  CommandResult, AppServiceCommand, AppService, Outside, execute_command,
}

-- src/app/ui_handler/CliUiController.h
pub record OverviewRow : Type 0 where
  pub row_name : String
  pub row_type : String
  pub row_status : String
  pub row_report : String

-- The thread: none that is joinable with work to do, one that is to carry out a command, and one
-- that has the service's result and has not stored it yet.
pub data Worker : Type 0 where
  absent : Worker
  running : AppServiceCommand → Worker
  answered : CommandResult → Worker

pub record CliUiController : Type 0 where
  pub selected_command : ℤ
  pub committed_command : ℤ
  pub payload_text : String
  pub executing : Bool
  pub executed_command : String
  pub command_result : Option CommandResult
  pub execute_thread : Worker
  pub agent_rows : List OverviewRow
  pub endpoint_rows : List OverviewRow

-- The state that the constructor leaves.
abbrev pub new_controller : CliUiController
new_controller = record {
  selected_command = pos 0;
  committed_command = negsuc 0;
  payload_text = "";
  executing = false;
  executed_command = "";
  command_result = none;
  execute_thread = absent;
  agent_rows = [];
  endpoint_rows = [];
}

abbrev pub menu_types : List AppServiceCommandType
menu_types =
    get_endpoint_list ∷ get_endpoint_status ∷ get_endpoint_status_all ∷ get_agent_list
    ∷ get_agent_status ∷ get_agent_status_all ∷ get_agent_report ∷ get_agent_report_all ∷ []

-- `canonical[static_cast<std::size_t>(type)]`, for each type.
unfoldable pub descriptors_at : List AppServiceCommandType → List AppServiceCommandDescriptor
descriptors_at [] = []
descriptors_at (t ∷ types) = elim (get_elem? commands (index t)) [
  | none ↦ descriptors_at types
  | some descriptor ↦ descriptor ∷ descriptors_at types
]

-- `command_descriptors`
unfoldable pub command_descriptors : List AppServiceCommandDescriptor
unfolding descriptors_at commands index get_elem?
command_descriptors = descriptors_at menu_types

abbrev pub ltb : ℕ → ℕ → Bool
ltb a b = elim (compare a b) [ Ordering.lt ↦ true | _ ↦ false ]

-- `committed_command >= 0 && committed_command < 8`
unfoldable pub valid_committed_command : CliUiController → Bool
valid_committed_command c = elim c.committed_command [ pos n ↦ ltb n 8 | negsuc n ↦ false ]

-- `command_descriptors[committed_command]`, for an index that is in range.
unfoldable pub committed_descriptor : CliUiController → Option AppServiceCommandDescriptor
unfolding command_descriptors get_elem?
committed_descriptor c = elim c.committed_command [
  | pos n ↦ get_elem? command_descriptors n
  | negsuc n ↦ none
]

-- The end of `executeCurrentCommand`. `joinExecution` ends a thread that has stored its result.
abbrev pub start_thread : AppServiceCommandDescriptor → CliUiController → CliUiController
start_thread descriptor c = record c {
  executing = true;
  executed_command = descriptor.name;
  execute_thread = running (record { cmd_type = descriptor.type; payload = c.payload_text });
}

-- What follows the first guard.
unfoldable pub launch : Option AppServiceCommandDescriptor → CliUiController → CliUiController
launch none c = c
launch (some descriptor) c = if c.executing then c else start_thread descriptor c

unfoldable pub execute_current_command : CliUiController → CliUiController
unfolding valid_committed_command committed_descriptor launch
execute_current_command c =
    if not (valid_committed_command c) then c else launch (committed_descriptor c) c

-- The end of the thread's body, under the lock.
unfoldable pub store_result : CommandResult → CliUiController → CliUiController
store_result result c = record c {
  command_result = some result;
  executing = false;
  execute_thread = absent;
}

-- The loops that fill `rows`.
unfoldable pub rows_of : Dict String → List OverviewRow
rows_of [] = []
rows_of ((name, status) ∷ entries) =
    record { row_name = name; row_type = ""; row_status = status; row_report = "" }
    ∷ rows_of entries

unfoldable pub set_agent_rows : Option (Dict String) → CliUiController → CliUiController
unfolding rows_of
set_agent_rows none c = c
set_agent_rows (some entries) c = record c { agent_rows = rows_of entries }

unfoldable pub set_endpoint_rows : Option (Dict String) → CliUiController → CliUiController
unfolding rows_of
set_endpoint_rows none c = c
set_endpoint_rows (some entries) c = record c { endpoint_rows = rows_of entries }

module _ (S : Sdk) (J : JsonApi) (outside : Outside) (reg : Registries S) where
  -- One half of `updateOverviewData`: the command, and what is done with its result if it succeeds.
  unfoldable pub fetch :
      AppServiceCommandType
      → (String → CliUiController → CliUiController)
      → AppService S
      → CliUiController
      → Option (AppService S × CliUiController)
  fetch type take service c =
      elim (execute_command S J outside reg (record { cmd_type = type; payload = "" }) service) [
        | none ↦ none
        | some (service', result) ↦
            some (service', if result.success then take result.result_data c else c)
      ]

  abbrev pub take_agents : String → CliUiController → CliUiController
  take_agents text c = set_agent_rows (agent_status_list_from_json_string J text) c

  abbrev pub take_endpoints : String → CliUiController → CliUiController
  take_endpoints text c = set_endpoint_rows (endpoint_status_list_from_json_string J text) c

  unfoldable pub update_overview_data :
      AppService S → CliUiController → Option (AppService S × CliUiController)
  unfolding fetch set_agent_rows set_endpoint_rows
  update_overview_data service c = elim (fetch get_agent_status_all take_agents service c) [
    | none ↦ none
    | some (service', c') ↦ fetch get_endpoint_status_all take_endpoints service' c'
  ]
