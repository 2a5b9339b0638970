-- ===== src/Cli/Labels.antt =====
-- The name over the result of a command in src/app/ui_handler: `executed_command` of the controller.
use mavlink_hub.Base.{String, ◌≡◌, refl, sym, ap, ◌∙◌, subst, false, Option, none, some, arith}
use mathlib.Core.Option.{some-injective}
use mavlink_hub.Base.Dict.{Dict}
use mavlink_hub.Sdk.{Sdk}
use mavlink_hub.Manager.State.{Registries}
use mavlink_hub.Json.Api.{JsonApi}
use mavlink_hub.Service.Execute.{
  CommandResult, AppServiceCommand, AppService, Outside, execute_command,
}
use mavlink_hub.Cli.Controller.{
  CliUiController, new_controller, running, answered, store_result, set_agent_rows,
  set_endpoint_rows,
}
use mavlink_hub.Cli.Menu.{IsGuarded, is_busy}
use mavlink_hub.Cli.Laws.{update_overview_data-rows, Reach-reads_only, Reach-IsGuarded}
use mavlink_hub.Cli.Run.{
  Session, Step, selects, commits, types, clears, executes, refreshes, works, reports, Reach, here,
  next,
}
use mavlink_hub.Cli.Labelled.{IsAnswer, IsLabelled, execute_current_command-IsLabelled}

module _ (S : Sdk) (J : JsonApi) (outside : Outside) (reg : Registries S) (s : AppService S) where
  set_agent_rows-IsLabelled :
      (o : Option (Dict String)) (c : CliUiController)
      → IsLabelled S J outside reg s c
      → IsLabelled S J outside reg s (set_agent_rows o c)
  unfolding set_agent_rows
  set_agent_rows-IsLabelled none c l = l
  set_agent_rows-IsLabelled (some entries) c l = record {
    named = l.named;
    done = l.done;
    idle = l.idle;
  }

  set_endpoint_rows-IsLabelled :
      (o : Option (Dict String)) (c : CliUiController)
      → IsLabelled S J outside reg s c
      → IsLabelled S J outside reg s (set_endpoint_rows o c)
  unfolding set_endpoint_rows
  set_endpoint_rows-IsLabelled none c l = l
  set_endpoint_rows-IsLabelled (some entries) c l = record {
    named = l.named;
    done = l.done;
    idle = l.idle;
  }

  works-IsLabelled :
      (s' : AppService S) (c : CliUiController) (cmd : AppServiceCommand) (result : CommandResult)
      → c.execute_thread ≡ running cmd
      → execute_command S J outside reg cmd s ≡ some (s', result)
      → IsGuarded c
      → IsLabelled S J outside reg s c
      → IsLabelled S J outside reg s (record c { execute_thread = answered result })
  works-IsLabelled s' c cmd result e answer g l =
      let (d, listed, name, type) = l.named cmd e in
      let busy = g.busy ∙ ap is_busy e in
      record {
        named = λ cmd' h. absurd (ground (arith, h));
        done = λ result' h. (
          d,
          cmd.payload,
          s',
          listed,
          name,
          ap
                (λ t.
                  execute_command S J outside reg (record { cmd_type = t; payload = cmd.payload })
                    s)
                type
              ∙ answer
              ∙ ap (λ r. some (s', r)) (ground (arith, h)),
        );
        idle = λ result' h. absurd (ground (arith, h, busy));
      }

  reports-IsLabelled :
      (c : CliUiController) (result : CommandResult)
      → c.execute_thread ≡ answered result
      → IsLabelled S J outside reg s c
      → IsLabelled S J outside reg s (store_result result c)
  unfolding store_result
  reports-IsLabelled c result e l = record {
    named = λ cmd h. absurd (ground (arith, h));
    done = λ result' h. absurd (ground (arith, h));
    idle = λ result' h i.
        subst (IsAnswer S J outside reg s c.executed_command) (some-injective _ _ i)
          (l.done result e);
  }

  Step-IsLabelled :
      {v w : Session S}
      → Step S J outside reg v w
      → v.app_service ≡ s
      → IsGuarded v.controller
      → IsLabelled S J outside reg s v.controller
      → IsLabelled S J outside reg s w.controller
  Step-IsLabelled (selects s0 c i) p g l = record { named = l.named; done = l.done; idle = l.idle }
  Step-IsLabelled (commits s0 c i) p g l = record { named = l.named; done = l.done; idle = l.idle }
  Step-IsLabelled (types s0 c text) p g l = record { named = l.named; done = l.done; idle = l.idle }
  Step-IsLabelled (clears s0 c) p g l = record {
    named = l.named;
    done = l.done;
    idle = λ result e h. absurd (ground (arith, h));
  }
  Step-IsLabelled (executes s0 c) p g l = execute_current_command-IsLabelled S J outside reg s c l
  Step-IsLabelled (refreshes s0 s' c c' e) p g l =
      let same = some-injective _ _ (sym (update_overview_data-rows S J outside reg s0 c) ∙ e) in
      subst (λ a. IsLabelled S J outside reg s a.1) same
        (set_endpoint_rows-IsLabelled _ _ (set_agent_rows-IsLabelled _ c l))
  Step-IsLabelled (works s0 s' c cmd result e answer) p g l =
      works-IsLabelled s' c cmd result e (rw (sym p) answer) g l
  Step-IsLabelled (reports s0 c result e) p g l = reports-IsLabelled c result e l

  Reach-IsLabelled :
      {v w : Session S}
      → Reach S J outside reg v w
      → v.app_service ≡ s
      → IsGuarded v.controller
      → IsLabelled S J outside reg s v.controller
      → IsLabelled S J outside reg s w.controller
  Reach-IsLabelled here p g l = l
  Reach-IsLabelled (next r step) p g l =
      Step-IsLabelled step (Reach-reads_only S J outside reg r g ∙ p)
        (Reach-IsGuarded S J outside reg r g) (Reach-IsLabelled r p g l)

  new_controller-IsLabelled : IsLabelled S J outside reg s new_controller
  new_controller-IsLabelled = record {
    named = λ cmd e. absurd (ground (arith, e));
    done = λ result e. absurd (ground (arith, e));
    idle = λ result e h. absurd (ground (arith, h));
  }

  -- In every run of the interface from its start, while no command is under way, the result that is
  -- kept for display is what the service answers to the command of the menu whose name is kept with
  -- it, with some payload: results are never shown under the name of another command then.
  pub idle_result_named :
      (w : Session S) (result : CommandResult)
      → Reach S J outside reg (record { app_service = s; controller = new_controller }) w
      → w.controller.executing ≡ false
      → w.controller.command_result ≡ some result
      → IsAnswer S J outside reg s w.controller.executed_command result
  idle_result_named w result r e h =
      (Reach-IsLabelled r refl (record { busy = refl; reads = tt }) new_controller-IsLabelled).idle
        result e h
