-- ===== src/Cli/Laws.antt =====
-- What the terminal interface of src/app/ui_handler/CliUiController.cpp can and cannot do.
use mavlink_hub.Base.{String, ◌≡◌, refl, sym, ap, ◌∙◌, subst, true, some, arith}
use mathlib.Core.Option.{some-injective}
use mavlink_hub.Sdk.{Sdk}
use mavlink_hub.Manager.State.{Registries}
use mavlink_hub.Manager.Queries
use mavlink_hub.Json.Api.{JsonApi}
use mavlink_hub.Json.Encode.{
  agent_state_to_string, endpoint_state_to_string, agent_status_document,
  agent_status_list_to_json_string, endpoint_status_document, endpoint_status_list_to_json_string,
}
use mavlink_hub.Json.RoundTrip.{
  IsLawful, texts, agent_status_list_round_trip, endpoint_status_list_round_trip,
}
use mavlink_hub.Service.Commands.{
  AppServiceCommandType, load_plan_from_path, load_plan_from_json_text, apply_current_plan,
  delete_current_plan,
}
use mavlink_hub.Service.Execute.{AppService, Outside, run_case, execute_command}
use mavlink_hub.Service.Laws.{Answers, Answers-elim}
use mavlink_hub.Cli.Controller.{
  CliUiController, store_result, rows_of, set_agent_rows, set_endpoint_rows, fetch, take_agents,
  take_endpoints, update_overview_data,
}
use mavlink_hub.Cli.Run.{
  Session, Step, selects, commits, types, clears, executes, refreshes, works, reports, Reach, here,
  next,
}
use mavlink_hub.Cli.Menu.{
  reads_only, is_busy, Reads, IsGuarded, execute_current_command-IsGuarded,
  set_agent_rows-IsGuarded, set_endpoint_rows-IsGuarded,
}

module _ (S : Sdk) (J : JsonApi) (outside : Outside) (reg : Registries S) where
  run_case-reads :
      (type : AppServiceCommandType) (payload : String) (service : AppService S)
      → reads_only type ≡ true
      → Answers (λ answer. answer.0 ≡ service) (run_case S J outside reg type payload service)
  unfolding run_case
  run_case-reads load_plan_from_path payload service r = absurd (ground arith)
  run_case-reads load_plan_from_json_text payload service r = absurd (ground arith)
  run_case-reads apply_current_plan payload service r = absurd (ground arith)
  run_case-reads delete_current_plan payload service r = absurd (ground arith)
  run_case-reads type payload service r = refl

  -- Both commands of the refresh succeed.
  pub update_overview_data-rows :
      (s : AppService S) (c : CliUiController)
      → update_overview_data S J outside reg s c
        ≡ some (
          s,
          take_endpoints S J outside reg
              (endpoint_status_list_to_json_string J
                (Queries.get_mavlink_endpoint_state_all S s.manager))
              (take_agents S J outside reg
                (agent_status_list_to_json_string J (Queries.get_agent_state_all S s.manager))
                c),
        )
  unfolding update_overview_data fetch execute_command run_case
  update_overview_data-rows s c = refl

  -- The refresh fills the overview with the name and the state's word of every agent and every
  -- endpoint of the manager, and leaves the service and all else as it is; jsoncons is lawful, and
  -- its parser gives back the two documents that were written.
  pub update_overview_data_lem :
      (lawful : IsLawful J) (s : AppService S) (c : CliUiController)
      → let agents = Queries.get_agent_state_all S s.manager in
        let endpoints = Queries.get_mavlink_endpoint_state_all S s.manager in
        J.parse (agent_status_list_to_json_string J agents) ≡ some (agent_status_document J agents)
        → J.parse (endpoint_status_list_to_json_string J endpoints)
          ≡ some (endpoint_status_document J endpoints)
        → update_overview_data S J outside reg s c
          ≡ some (
            s,
            record c {
              agent_rows = rows_of (texts agent_state_to_string agents);
              endpoint_rows = rows_of (texts endpoint_state_to_string endpoints);
            },
          )
  unfolding set_agent_rows set_endpoint_rows
  update_overview_data_lem lawful s c pa pe =
      let agents = Queries.get_agent_state_all S s.manager in
      let endpoints = Queries.get_mavlink_endpoint_state_all S s.manager in
      update_overview_data-rows s c
      ∙ ap
          (λ rows. some (
            s,
            set_endpoint_rows rows
                (take_agents S J outside reg (agent_status_list_to_json_string J agents) c),
          ))
          (endpoint_status_list_round_trip J lawful endpoints pe)
      ∙ ap
          (λ rows. some (
            s,
            set_endpoint_rows (some (texts endpoint_state_to_string endpoints))
                (set_agent_rows rows c),
          ))
          (agent_status_list_round_trip J lawful agents pa)

  refreshed-IsGuarded :
      (agents endpoints : String) (c : CliUiController)
      → IsGuarded c
      → IsGuarded (take_endpoints S J outside reg endpoints (take_agents S J outside reg agents c))
  refreshed-IsGuarded agents endpoints c g =
      set_endpoint_rows-IsGuarded _ _ (set_agent_rows-IsGuarded _ c g)

  -- What a step from a guarded controller keeps.
  pub record Keeps (v w : Session S) : Type 0 where
    pub guarded : IsGuarded w.controller
    pub service : w.app_service ≡ v.app_service

  pub Step-Keeps : {v w : Session S} → Step S J outside reg v w → IsGuarded v.controller → Keeps v w
  unfolding store_result execute_command
  Step-Keeps (selects s c i) g = record {
    guarded = record { busy = g.busy; reads = g.reads };
    service = refl;
  }
  Step-Keeps (commits s c i) g = record {
    guarded = record { busy = g.busy; reads = g.reads };
    service = refl;
  }
  Step-Keeps (types s c text) g = record {
    guarded = record { busy = g.busy; reads = g.reads };
    service = refl;
  }
  Step-Keeps (clears s c) g = record {
    guarded = record { busy = g.busy; reads = g.reads };
    service = refl;
  }
  Step-Keeps (executes s c) g = record {
    guarded = execute_current_command-IsGuarded c g;
    service = refl;
  }
  Step-Keeps (refreshes s s' c c' e) g =
      let same = some-injective _ _ (sym (update_overview_data-rows s c) ∙ e) in
      record {
        guarded = subst (λ a. IsGuarded a.1) same (refreshed-IsGuarded _ _ c g);
        service = sym (ap (λ a. a.0) same);
      }
  Step-Keeps (works s s' c cmd result e answer) g = record {
    guarded = record { busy = g.busy ∙ ap is_busy e; reads = tt };
    service =
        Answers-elim (λ a. a.0 ≡ s) _ (s', result)
          (run_case-reads cmd.cmd_type cmd.payload s (subst Reads e g.reads)) answer;
  }
  Step-Keeps (reports s c result e) g = record {
    guarded = record { busy = refl; reads = tt };
    service = refl;
  }

  Reach-Keeps : {v w : Session S} → Reach S J outside reg v w → IsGuarded v.controller → Keeps v w
  Reach-Keeps here g = record { guarded = g; service = refl }
  Reach-Keeps (next r s) g =
      let before = Reach-Keeps r g in
      let after = Step-Keeps s before.guarded in
      record { guarded = after.guarded; service = after.service ∙ before.service }

  -- Whatever the user does in the interface, and however the worker's steps fall in between, the
  -- service stays as it is, its plan and its manager: the menu has only commands that read. The run
  -- starts with a guarded controller, as a new one is.
  pub Reach-reads_only :
      {v w : Session S}
      → Reach S J outside reg v w
      → IsGuarded v.controller
      → w.app_service ≡ v.app_service
  Reach-reads_only r g = (Reach-Keeps r g).service

  pub Reach-IsGuarded :
      {v w : Session S}
      → Reach S J outside reg v w
      → IsGuarded v.controller
      → IsGuarded w.controller
  Reach-IsGuarded r g = (Reach-Keeps r g).guarded

  -- In every run from a guarded controller, the flag of executing is set exactly while a command is
  -- under way, from its start until its result is stored.
  pub Reach-executing :
      {v w : Session S}
      → Reach S J outside reg v w
      → IsGuarded v.controller
      → w.controller.executing ≡ is_busy w.controller.execute_thread
  Reach-executing r g = (Reach-Keeps r g).guarded.busy
