-- ===== src/Cli/Menu.antt =====
-- The menu of src/app/ui_handler/CliUiController.cpp and the guard of its worker thread.
use mavlink_hub.Base.{
  ℕ, zero, suc, String, ◌≡◌, refl, Bool, true, false, Option, none, some, List, [], ◌∷◌, not,
  if◌then◌else◌, arith,
}
use mavlink_hub.Base.Count.{pos, negsuc}
use mavlink_hub.Base.Dict.{Dict}
use mavlink_hub.Service.Commands.{
  AppServiceCommandType, AppServiceCommandDescriptor, get_elem?, get_endpoint_list,
  get_endpoint_status, get_endpoint_status_all, get_agent_list, get_agent_status,
  get_agent_status_all, get_agent_report, get_agent_report_all,
}
use mavlink_hub.Cli.Controller.{
  CliUiController, valid_committed_command, Worker, absent, running, answered, command_descriptors,
  committed_descriptor, launch, start_thread, execute_current_command, set_agent_rows,
  set_endpoint_rows,
}

-- The commands that ask for names, states and reports.
abbrev pub reads_only : AppServiceCommandType → Bool
reads_only get_endpoint_list = true
reads_only get_endpoint_status = true
reads_only get_endpoint_status_all = true
reads_only get_agent_list = true
reads_only get_agent_status = true
reads_only get_agent_status_all = true
reads_only get_agent_report = true
reads_only get_agent_report_all = true
reads_only type = false

abbrev AllRead : List AppServiceCommandDescriptor → Type 0
AllRead [] = Unit {0}
AllRead (d ∷ ds) = (reads_only d.type ≡ true) × AllRead ds

get_elem?-AllRead :
    (ds : List AppServiceCommandDescriptor) (i : ℕ) (d : AppServiceCommandDescriptor)
    → AllRead ds
    → get_elem? ds i ≡ some d
    → reads_only d.type ≡ true
unfolding get_elem?
get_elem?-AllRead [] i d a e = cc
get_elem?-AllRead (x ∷ ds) zero d a e = ground arith
get_elem?-AllRead (x ∷ ds) (suc i) d a e = get_elem?-AllRead ds i d a.1 e

command_descriptors-AllRead : AllRead command_descriptors
unfolding command_descriptors
command_descriptors-AllRead = (refl, (refl, (refl, (refl, (refl, (refl, (refl, (refl, tt))))))))

committed_descriptor-reads :
    (c : CliUiController) (d : AppServiceCommandDescriptor)
    → committed_descriptor c ≡ some d
    → reads_only d.type ≡ true
unfolding committed_descriptor
committed_descriptor-reads c d e =
    elim c.committed_command
        as (λ i.
          (elim i [ pos n ↦ get_elem? command_descriptors n | negsuc n ↦ none ]) ≡ some d
          → reads_only d.type ≡ true) [
            | pos n ↦ λ h. get_elem?-AllRead command_descriptors n d command_descriptors-AllRead h
            | negsuc n ↦ λ h. cc
          ]
      e

abbrev pub is_busy : Worker → Bool
is_busy absent = false
is_busy (running cmd) = true
is_busy (answered result) = true

abbrev pub Reads : Worker → Type 0
Reads absent = Unit {0}
Reads (running cmd) = reads_only cmd.cmd_type ≡ true
Reads (answered result) = Unit {0}

-- The flag is set while a command is under way, and what the worker carries out only reads.
pub record IsGuarded (c : CliUiController) : Type 0 where
  pub busy : c.executing ≡ is_busy c.execute_thread
  pub reads : Reads c.execute_thread

either-IsGuarded :
    (b : Bool) (c d : CliUiController) → IsGuarded c → IsGuarded d → IsGuarded (if b then c else d)
either-IsGuarded true c d g h = g
either-IsGuarded false c d g h = h

launch-IsGuarded :
    (o : Option AppServiceCommandDescriptor) (c : CliUiController)
    → ((d : AppServiceCommandDescriptor) → o ≡ some d → reads_only d.type ≡ true)
    → IsGuarded c
    → IsGuarded (launch o c)
unfolding launch
launch-IsGuarded none c r g = g
launch-IsGuarded (some d) c r g =
    either-IsGuarded c.executing c (start_thread d c) g (record { busy = refl; reads = r d refl })

pub execute_current_command-IsGuarded :
    (c : CliUiController) → IsGuarded c → IsGuarded (execute_current_command c)
unfolding execute_current_command
execute_current_command-IsGuarded c g =
    either-IsGuarded (not (valid_committed_command c)) c (launch (committed_descriptor c) c) g
      (launch-IsGuarded (committed_descriptor c) c (committed_descriptor-reads c) g)

pub set_agent_rows-IsGuarded :
    (o : Option (Dict String)) (c : CliUiController) → IsGuarded c → IsGuarded (set_agent_rows o c)
unfolding set_agent_rows
set_agent_rows-IsGuarded none c g = g
set_agent_rows-IsGuarded (some entries) c g = record { busy = g.busy; reads = g.reads }

pub set_endpoint_rows-IsGuarded :
    (o : Option (Dict String)) (c : CliUiController)
    → IsGuarded c
    → IsGuarded (set_endpoint_rows o c)
unfolding set_endpoint_rows
set_endpoint_rows-IsGuarded none c g = g
set_endpoint_rows-IsGuarded (some entries) c g = record { busy = g.busy; reads = g.reads }
