-- ===== src/Cli/Labelled.antt =====
-- The name over the result of a command in src/app/ui_handler: what the controller keeps of it.
use mavlink_hub.Base.{
  ℕ, String, ◌≡◌, refl, Bool, true, false, not, Option, none, some, arith, if◌then◌else◌,
}
use mavlink_hub.Base.Count.{pos, negsuc}
use mavlink_hub.Sdk.{Sdk}
use mavlink_hub.Manager.State.{Registries}
use mavlink_hub.Json.Api.{JsonApi}
use mavlink_hub.Service.Commands.{AppServiceCommandDescriptor, get_elem?}
use mavlink_hub.Service.Execute.{
  CommandResult, AppServiceCommand, AppService, Outside, execute_command,
}
use mavlink_hub.Cli.Controller.{
  CliUiController, running, answered, command_descriptors, committed_descriptor,
  valid_committed_command, launch, start_thread, execute_current_command,
}

-- A row of the menu.
abbrev pub IsListed : AppServiceCommandDescriptor → Type 0
IsListed d = (i : ℕ) × (get_elem? command_descriptors i ≡ some d)

committed_descriptor-IsListed :
    (c : CliUiController) (d : AppServiceCommandDescriptor)
    → committed_descriptor c ≡ some d
    → IsListed d
unfolding committed_descriptor
committed_descriptor-IsListed c d e =
    elim c.committed_command
        as (λ i.
          (elim i [ pos n ↦ get_elem? command_descriptors n | negsuc n ↦ none ]) ≡ some d
          → IsListed d) [ pos n ↦ λ h. (n, h) | negsuc n ↦ λ h. cc ]
      e

module _ (S : Sdk) (J : JsonApi) (outside : Outside) (reg : Registries S) (s : AppService S) where
  -- The result is what the service answers to the command of that name.
  abbrev pub IsAnswer : String → CommandResult → Type 0
  IsAnswer name result =
      (d : AppServiceCommandDescriptor) × (payload : String) × (s' : AppService S) × IsListed d
      × (d.name ≡ name)
      × (execute_command S J outside reg (record { cmd_type = d.type; payload = payload }) s
          ≡ some (s', result))

  pub record IsLabelled (c : CliUiController) : Type 0 where
    pub named :
        (cmd : AppServiceCommand)
        → c.execute_thread ≡ running cmd
        → (d : AppServiceCommandDescriptor) × IsListed d
          × (d.name ≡ c.executed_command)
          × (d.type ≡ cmd.cmd_type)
    pub done :
        (result : CommandResult)
        → c.execute_thread ≡ answered result
        → IsAnswer c.executed_command result
    pub idle :
        (result : CommandResult)
        → c.executing ≡ false
        → c.command_result ≡ some result
        → IsAnswer c.executed_command result

  start_thread-IsLabelled :
      (d : AppServiceCommandDescriptor) (c : CliUiController)
      → IsListed d
      → IsLabelled (start_thread d c)
  start_thread-IsLabelled d c l = record {
    named = λ cmd e. (d, l, refl, ground (arith, e));
    done = λ result e. absurd (ground (arith, e));
    idle = λ result e h. absurd (ground (arith, e));
  }

  either-IsLabelled :
      (b : Bool) (c d : CliUiController)
      → IsLabelled c
      → IsLabelled d
      → IsLabelled (if b then c else d)
  either-IsLabelled true c d g h = g
  either-IsLabelled false c d g h = h

  launch-IsLabelled :
      (o : Option AppServiceCommandDescriptor) (c : CliUiController)
      → ((d : AppServiceCommandDescriptor) → o ≡ some d → IsListed d)
      → IsLabelled c
      → IsLabelled (launch o c)
  unfolding launch
  launch-IsLabelled none c f l = l
  launch-IsLabelled (some d) c f l =
      either-IsLabelled c.executing c (start_thread d c) l (start_thread-IsLabelled d c (f d refl))

  pub execute_current_command-IsLabelled :
      (c : CliUiController) → IsLabelled c → IsLabelled (execute_current_command c)
  unfolding execute_current_command
  execute_current_command-IsLabelled c l =
      either-IsLabelled (not (valid_committed_command c)) c (launch (committed_descriptor c) c) l
        (launch-IsLabelled (committed_descriptor c) c (committed_descriptor-IsListed c) l)
