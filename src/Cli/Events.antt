-- ===== src/Cli/Events.antt =====
-- src/app/ui_handler/CliUiHandler.cpp: what the interface does on the keys that it catches, on its
-- buttons, and on Enter in the menu.
use mavlink_hub.Base.{ℕ, ◌<◌, ◌≡◌, Bool, true, false, Option, none, some, List, same}
use mavlink_hub.Base.Count.{pos, negsuc}
use mavlink_hub.Base.Length.{length}
use mavlink_hub.Sdk.{Sdk}
use mavlink_hub.Manager.State.{Registries}
use mavlink_hub.Json.Api.{JsonApi}
use mavlink_hub.Service.Execute.{AppService, Outside}
use mavlink_hub.Cli.Controller.{CliUiController, execute_current_command}
use mavlink_hub.Cli.Run.{Step, commits, types, clears, executes}
use mavlink_hub.Cli.View.{focus_next_box}
use mavlink_hub.Service.Commands.{get_elem?}

pub data Event : Type 0 where
  tab tab_reverse : Event
  any_other : ℕ → Event

-- The handler of `CatchEvent`: the box that takes the focus, if one does, and whether the event is
-- consumed.
unfoldable pub catch_event : Event → List Bool → Option ℕ × Bool
unfolding focus_next_box
catch_event tab boxes = (some (focus_next_box (pos 1) boxes), true)
catch_event tab_reverse boxes = (some (focus_next_box (negsuc 0) boxes), true)
catch_event (any_other n) boxes = (none, false)

-- `TakeFocus` of FTXUI on the box at an index, as what `Focused` of the boxes answers afterwards: that
-- box and no other has the focus.
pub record TakesFocus (take_focus : ℕ → List Bool → List Bool) : Type 0 where
  pub same_boxes : (i : ℕ) (boxes : List Bool) → length (take_focus i boxes) ≡ length boxes
  pub focused :
      (i j : ℕ) (boxes : List Bool)
      → i < length boxes
      → j < length boxes
      → get_elem? (take_focus i boxes) j ≡ some (same i j)

module _ (take_focus : ℕ → List Bool → List Bool) where
  abbrev pub focus_after : Event → List Bool → List Bool
  focus_after event boxes = elim (catch_event event boxes).0 [
    | none ↦ boxes
    | some chosen ↦ take_focus chosen boxes
  ]

pub data ActionButton : Type 0 where
  execute_command clear_payload clear_result : ActionButton

-- The callbacks of the three buttons, and `on_enter` of the menu.
unfoldable pub press : ActionButton → CliUiController → CliUiController
unfolding execute_current_command
press execute_command c = execute_current_command c
press clear_payload c = record c { payload_text = "" }
press clear_result c = record c { command_result = none }

unfoldable pub on_enter : CliUiController → CliUiController
on_enter c = record c { committed_command = c.selected_command }

-- They are steps of a run.
pub press-Step :
    {S : Sdk} (J : JsonApi) (outside : Outside) (reg : Registries S) (button : ActionButton)
    (service : AppService S) (c : CliUiController)
    → Step S J outside reg
        (record { app_service = service; controller = c })
        (record { app_service = service; controller = press button c })
unfolding press
press-Step J outside reg execute_command service c = executes service c
press-Step J outside reg clear_payload service c = types service c ""
press-Step J outside reg clear_result service c = clears service c

pub on_enter-Step :
    {S : Sdk} (J : JsonApi) (outside : Outside) (reg : Registries S) (service : AppService S)
    (c : CliUiController)
    → Step S J outside reg
        (record { app_service = service; controller = c })
        (record { app_service = service; controller = on_enter c })
unfolding on_enter
on_enter-Step J outside reg service c = commits service c c.selected_command
