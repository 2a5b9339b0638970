-- ===== src/Service/Execute.antt =====
-- src/app/app_service/AppService.cpp, `executeCommand`.
use mavlink_hub.Base.{
  String, ◌<>◌, ◌==◌, Bool, true, false, Option, none, some, List, [], ◌∷◌, if◌then◌else◌,
}
use mavlink_hub.Sdk.{Sdk}
use mavlink_hub.Manager.Types.{UserPlan, UserPlanPolicy}
use mavlink_hub.Manager.State.{Manager, Registries}
use mavlink_hub.Manager.Queries
use mavlink_hub.Manager.Plan.{validate_plan}
use mavlink_hub.Manager.Execute.{execute_plan}
use mavlink_hub.Json.Api.{JsonApi, Decoded, thrown, nothing, just}
use mavlink_hub.Json.Decode.{string_to_user_plan}
use mavlink_hub.Json.Encode
use mavlink_hub.Service.Commands.{
  AppServiceCommandType, load_plan_from_path, load_plan_from_json_text, check_current_plan,
  apply_current_plan, delete_current_plan, get_endpoint_list, get_endpoint_status,
  get_endpoint_status_all, get_agent_list, get_agent_status, get_agent_status_all, get_agent_report,
  get_agent_report_all,
}

-- src/app/types/CommandResult.h; `result_data` is its field `data`.
pub record CommandResult : Type 0 where
  pub success : Bool
  pub message : List String
  pub result_data : String

-- src/app/app_service/AppServiceCommand.h
pub record AppServiceCommand : Type 0 where
  pub cmd_type : AppServiceCommandType
  pub payload : String

-- The service's own plan, and the manager that it refers to.
pub record AppService (S : Sdk) : Type 0 where
  pub current_plan : Option UserPlan
  pub manager : Manager S

-- What lies outside: the text of a file that can be opened, and what the fields hold that the code
-- leaves uninitialised, the policy of a fresh UserPlan, the flag of a fresh CommandResult and the
-- last field of a fresh AppConfig.
pub record Outside : Type 0 where
  pub open_file : String → Option String
  pub uninit_policy : UserPlanPolicy
  pub uninit_success : Bool
  pub uninit_apply : Bool

abbrev pub answer : Bool → String → String → CommandResult
answer ok message result = record { success = ok; message = message ∷ []; result_data = result }

module _ (S : Sdk) (J : JsonApi) where
  -- `none` is an exception that leaves `executeCommand`.
  abbrev pub Response : Type 0
  Response = Option (AppService S × CommandResult)

  -- What both load commands do with the parser's result.
  unfoldable pub keep_plan : AppService S → Decoded UserPlan → Response
  keep_plan service thrown = none
  keep_plan service nothing =
      some (service, answer false "[AppService]: Plan is not loaded because of parsing error" "")
  keep_plan service (just plan) =
      some
        (record service { current_plan = some plan }, answer true "[AppService]: Plan is loaded" "")

  unfoldable pub load_from_path : Outside → String → AppService S → Response
  unfolding keep_plan
  load_from_path outside payload service = elim (outside.open_file payload) [
    | none ↦ some (
      service,
      answer false
          ("[AppService]: Plan is not loaded because the file [" <> payload <> "] does not exist")
          "",
    )
    | some text ↦ keep_plan service (string_to_user_plan J outside.uninit_policy text)
  ]

  unfoldable pub check_plan : Registries S → AppService S → CommandResult
  check_plan reg service = elim service.current_plan [
    | none ↦ answer false "[AppService]: Plan is not checked because there is no plan loaded" ""
    | some plan ↦
        answer true
          "[AppService]: The current plan has been checked and the detailed report has been produced."
          (Encode.execution_result_list_to_json_string J (validate_plan S reg plan service.manager))
  ]

  unfoldable pub apply_plan : Registries S → AppService S → AppService S × CommandResult
  apply_plan reg service = elim service.current_plan [
    | none ↦ (
      service,
      answer false "[AppService]: Plan is not applied because there is no plan loaded" "",
    )
    | some plan ↦
        let done = execute_plan S reg plan service.manager in
        (
          record service { manager = done.0 },
          answer true
              "[AppService]: The current plan is applied and the detailed report has been produced."
              (Encode.execution_result_list_to_json_string J done.1),
        )
  ]

  -- The queries of one endpoint or agent: `what` of the `kind` with this name, as `found`.
  unfoldable pub query : String → String → String → Option String → CommandResult
  query what kind name found =
      if name == ""
      then answer false
          ("[AppService]: " <> what <> " is not retrieved because the " <> kind
            <> " name is missing")
          ""
      else elim found [
        | none ↦
            answer false
              ("[AppService]: " <> what <> " is not retrieved because the " <> kind <> " name ["
                <> name <> "] is not registered")
              ""
        | some text ↦ answer true ("[AppService]: " <> what <> " has been retrieved.") text
      ]

  abbrev encoded : {A : Type 0} → (A → String) → Option A → Option String
  encoded write none = none
  encoded write (some a) = some (write a)

  -- The cases that only `break`: the result's flag stays as it was made.
  abbrev pub not_implemented : Outside → CommandResult
  not_implemented outside = record {
    success = outside.uninit_success;
    message = [];
    result_data = "";
  }

  -- The cases of the switch: the command's payload is the second argument.
  unfoldable pub run_case :
      Outside → Registries S → AppServiceCommandType → String → AppService S → Response
  unfolding keep_plan load_from_path check_plan apply_plan query
  run_case outside reg load_plan_from_path payload service = load_from_path outside payload service
  run_case outside reg load_plan_from_json_text payload service =
      keep_plan service (string_to_user_plan J outside.uninit_policy payload)
  run_case outside reg check_current_plan payload service = some (service, check_plan reg service)
  run_case outside reg apply_current_plan payload service = some (apply_plan reg service)
  run_case outside reg delete_current_plan payload service = some (
    record service { current_plan = none },
    answer true "[AppService]: Current plan is removed. There is no loaded plan now." "",
  )
  run_case outside reg get_endpoint_list payload service = some (
    service,
    answer true "[AppService]: Endpoint list has been retrieved." (
        Encode.endpoint_list_to_json_string J
          (Queries.get_mavlink_endpoint_list S service.manager)),
  )
  run_case outside reg get_endpoint_status payload service = some (
    service,
    query "Endpoint status" "endpoint" payload (
        encoded (Encode.endpoint_status_to_json_string J)
          (Queries.get_mavlink_endpoint_state S payload service.manager)),
  )
  run_case outside reg get_endpoint_status_all payload service = some (
    service,
    answer true "[AppService]: Endpoint statuses have been retrieved." (
        Encode.endpoint_status_list_to_json_string J
          (Queries.get_mavlink_endpoint_state_all S service.manager)),
  )
  run_case outside reg get_agent_list payload service = some (
    service,
    answer true "[AppService]: Agent list has been retrieved."
        (Encode.agent_list_to_json_string J (Queries.get_agent_list S service.manager)),
  )
  run_case outside reg get_agent_status payload service = some (
    service,
    query "Agent status" "agent" payload (
        encoded (Encode.agent_status_to_json_string J)
          (Queries.get_agent_state S payload service.manager)),
  )
  run_case outside reg get_agent_status_all payload service = some (
    service,
    answer true "[AppService]: Agent statuses have been retrieved."
        (Encode.agent_status_list_to_json_string J (Queries.get_agent_state_all S service.manager)),
  )
  run_case outside reg get_agent_report payload service = some (
    service,
    query "Agent report" "agent" payload (
        encoded (Encode.agent_report_to_json_string J payload)
          (Queries.get_agent_report S payload service.manager)),
  )
  run_case outside reg get_agent_report_all payload service = some (
    service,
    answer true "[AppService]: Agent reports have been retrieved." (
        Encode.agent_report_list_to_json_string J (Queries.get_agent_report_all S service.manager)),
  )
  run_case outside reg t payload service = some (service, not_implemented outside)

  unfoldable pub execute_command :
      Outside → Registries S → AppServiceCommand → AppService S → Response
  unfolding run_case
  execute_command outside reg cmd service = run_case outside reg cmd.cmd_type cmd.payload service
