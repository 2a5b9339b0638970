-- ===== src/Tests/ViewTests.antt =====
-- The view of src/app/ui_handler: the theorems at concrete inputs.
use mavlink_hub.Base.{ℕ, ◌+◌, same, List, Bool, ◌≡◌, ◌⊎◌, refl, true, false, none, some, [], ◌∷◌}
use mavlink_hub.Base.Count.{pos}
use mavlink_hub.Cli.Controller.{CliUiController, running, new_controller, execute_current_command}
use mavlink_hub.Service.Commands.{AppServiceCommandDescriptor}
use mavlink_hub.Cli.View.{shown_descriptor, selected_name}
use mavlink_hub.Cli.ViewLaws.{execute_starts_shown}

-- The last box has the focus.
abbrev last : List Bool
last = false ∷ false ∷ true ∷ []

-- A focus that is set box by box, from the index `k` on.
unfoldable focus_from : ℕ → ℕ → List Bool → List Bool
focus_from i k [] = []
focus_from i k (here ∷ rest) = same i k ∷ focus_from i (k + 1) rest

-- The command of the fourth row is committed.
abbrev committed : CliUiController
committed = record new_controller { committed_command = pos 3 }

execute_starts_shown_example :
    ((shown_descriptor committed ≡ none)
      × ((selected_name (shown_descriptor committed) ≡ "none")
          × (execute_current_command committed ≡ committed)))
    ⊎ ((d : AppServiceCommandDescriptor) × (shown_descriptor committed ≡ some d)
        × ((execute_current_command committed).execute_thread
            ≡ running (record { cmd_type = d.type; payload = "" }))
        × ((execute_current_command committed).executing ≡ true)
        × ((execute_current_command committed).executed_command
            ≡ selected_name (shown_descriptor committed)))
execute_starts_shown_example = execute_starts_shown committed refl
