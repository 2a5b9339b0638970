-- ===== src/Cli/Run.antt =====
-- Runs of the terminal interface of src/app/ui_handler/CliUiController.cpp: what the user does, and
-- the worker thread, in any order. A call of the service is one step.
use mavlink_hub.Base.{String, ◌≡◌, some, none}
use mavlink_hub.Base.Count.{ℤ}
use mavlink_hub.Sdk.{Sdk}
use mavlink_hub.Manager.State.{Registries}
use mavlink_hub.Json.Api.{JsonApi}
use mavlink_hub.Service.Execute.{
  CommandResult, AppServiceCommand, AppService, Outside, execute_command,
}
use mavlink_hub.Cli.Controller.{
  CliUiController, running, answered, execute_current_command, store_result, update_overview_data,
}

pub record Session (S : Sdk) : Type 0 where
  pub app_service : AppService S
  pub controller : CliUiController

module _ (S : Sdk) (J : JsonApi) (outside : Outside) (reg : Registries S) where
  pub data Step : Session S → Session S → Type 0 where
    selects :
        (s : AppService S) (c : CliUiController) (i : ℤ)
        → Step
            (record { app_service = s; controller = c })
            (record { app_service = s; controller = record c { selected_command = i } })
    commits :
        (s : AppService S) (c : CliUiController) (i : ℤ)
        → Step
            (record { app_service = s; controller = c })
            (record { app_service = s; controller = record c { committed_command = i } })
    types :
        (s : AppService S) (c : CliUiController) (text : String)
        → Step
            (record { app_service = s; controller = c })
            (record { app_service = s; controller = record c { payload_text = text } })
    clears :
        (s : AppService S) (c : CliUiController)
        → Step
            (record { app_service = s; controller = c })
            (record { app_service = s; controller = record c { command_result = none } })
    executes :
        (s : AppService S) (c : CliUiController)
        → Step
            (record { app_service = s; controller = c })
            (record { app_service = s; controller = execute_current_command c })
    refreshes :
        (s s' : AppService S) (c c' : CliUiController)
        → update_overview_data S J outside reg s c ≡ some (s', c')
        → Step
            (record { app_service = s; controller = c })
            (record { app_service = s'; controller = c' })
    works :
        (s s' : AppService S) (c : CliUiController) (cmd : AppServiceCommand)
        (result : CommandResult)
        → c.execute_thread ≡ running cmd
        → execute_command S J outside reg cmd s ≡ some (s', result)
        → Step
            (record { app_service = s; controller = c })
            (record {
              app_service = s';
              controller = record c { execute_thread = answered result };
            })
    reports :
        (s : AppService S) (c : CliUiController) (result : CommandResult)
        → c.execute_thread ≡ answered result
        → Step
            (record { app_service = s; controller = c })
            (record { app_service = s; controller = store_result result c })

  pub data Reach (w : Session S) : Session S → Type 0 where
    here : Reach w w
    next : {u v : Session S} → Reach w u → Step u v → Reach w v
