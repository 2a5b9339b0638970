-- ===== src/Cli/ScreenLaws.antt =====
-- The screen of src/app/ui_handler/CliUiHandler.cpp against the runs of the controller.
use mavlink_hub.Base.{◌≡◌, refl, true, false, ◌⊎◌, inl, inr, Bool-cases, arith}
use mavlink_hub.Sdk.{Sdk}
use mavlink_hub.Manager.State.{Registries}
use mavlink_hub.Json.Api.{JsonApi}
use mavlink_hub.Service.Execute.{AppService, Outside}
use mavlink_hub.Cli.Controller.{new_controller, execute_current_command, launch}
use mavlink_hub.Cli.Run.{Session, Reach}
use mavlink_hub.Cli.Menu.{is_busy}
use mavlink_hub.Cli.Laws.{Reach-executing}
use mavlink_hub.Cli.View.{Ftxui}
use mavlink_hub.Cli.Events.{execute_command, press}
use mavlink_hub.Cli.Screen.{action_status, executing_sign, ready_sign}

module _ (F : Ftxui) {S : Sdk} (J : JsonApi) (outside : Outside) (reg : Registries S) where
  -- In whatever the user and the worker thread have led a new interface to: while a command is under
  -- way the screen says "Executing...", and the Execute button changes nothing; otherwise it says
  -- "Ready".
  pub action_status_lem :
      (service : AppService S) (w : Session S)
      → Reach S J outside reg (record { app_service = service; controller = new_controller }) w
      → ((is_busy w.controller.execute_thread ≡ true)
          × (action_status F w.controller ≡ executing_sign F)
          × (press execute_command w.controller ≡ w.controller))
        ⊎ ((is_busy w.controller.execute_thread ≡ false)
            × (action_status F w.controller ≡ ready_sign F))
  unfolding action_status press execute_current_command launch
  action_status_lem service w r =
      let flag = Reach-executing S J outside reg r (record { busy = refl; reads = tt }) in
      elim (Bool-cases (is_busy w.controller.execute_thread)) [
        | inl busy ↦ inl (busy, ground (arith, flag, busy), ground (arith, flag, busy))
        | inr idle ↦ inr (idle, ground (arith, flag, idle))
      ]
