-- ===== src/Cli/Operation.antt =====
-- The interface of src/app/ui_handler in operation beside the agents: the user's actions, the steps of
-- the worker thread and the code that agents run on src/manager/Manager.cpp, in any order.
use mavlink_hub.Base.{String, ◌≡◌, refl, ◌∙◌, ap, true}
use mavlink_hub.Sdk
use mavlink_hub.Sdk.{Sdk}
use mavlink_hub.Manager.State.{Registries}
use mavlink_hub.Manager.Frame.{has, has-insert, perform-agents, perform-has}
use mavlink_hub.Manager.Requests.{perform}
use mavlink_hub.Manager.Agents.{set_agent}
use mavlink_hub.Json.Api.{JsonApi}
use mavlink_hub.Service.Execute.{AppService, Outside}
use mavlink_hub.Cli.Controller.{CliUiController, new_controller}
use mavlink_hub.Cli.Menu.{IsGuarded}
use mavlink_hub.Cli.Run.{Session, Step}
use mavlink_hub.Cli.Laws.{Step-Keeps}

-- The same plan is loaded, and the same endpoints and agents are there.
pub record SameHoldings {S : Sdk} (s t : AppService S) : Type 0 where
  pub plan : t.current_plan ≡ s.current_plan
  pub endpoints : (k : String) → has k t.manager.endpoint_db ≡ has k s.manager.endpoint_db
  pub agents : (k : String) → has k t.manager.agents ≡ has k s.manager.agents

module _ {S : Sdk} (J : JsonApi) (outside : Outside) (reg : Registries S) where
  pub data Operates (v : Session S) : Session S → Type 0 where
    opened : Operates v v
    interacts : {u w : Session S} → Operates v u → Step S J outside reg u w → Operates v w
    agent_works :
        {s : AppService S} {c : CliUiController}
        → Operates v (record { app_service = s; controller = c })
        → (name : String) (code : Sdk.Calls S S.Agent) → has name s.manager.agents ≡ true
        → Operates v (record {
          app_service = record s {
            manager = let ran = perform S name code s.manager in set_agent S name ran.1 ran.0;
          };
          controller = c;
        })

  record Fixed (v w : Session S) : Type 0 where
    guarded : IsGuarded w.controller
    holdings : SameHoldings v.app_service w.app_service

  Operates-Fixed : (v w : Session S) → Operates v w → IsGuarded v.controller → Fixed v w
  Operates-Fixed v w opened g = record {
    guarded = g;
    holdings = record { plan = refl; endpoints = λ k. refl; agents = λ k. refl };
  }
  Operates-Fixed v w (interacts {u = u} before step) g =
      let fixed = Operates-Fixed v u before g in
      let kept = Step-Keeps S J outside reg step fixed.guarded in
      record {
        guarded = kept.guarded;
        holdings = record {
          plan = ap (λ s. s.current_plan) kept.service ∙ fixed.holdings.plan;
          endpoints =
              λ k. ap (λ s. has k s.manager.endpoint_db) kept.service ∙ fixed.holdings.endpoints k;
          agents = λ k. ap (λ s. has k s.manager.agents) kept.service ∙ fixed.holdings.agents k;
        };
      }
  Operates-Fixed v w (agent_works {s = s} {c = c} before name code there) g =
      let fixed = Operates-Fixed v (record { app_service = s; controller = c }) before g in
      let unchanged = perform-agents S name code s.manager in
      record {
        guarded = fixed.guarded;
        holdings = record {
          plan = fixed.holdings.plan;
          endpoints = λ k. perform-has S name code s.manager k ∙ fixed.holdings.endpoints k;
          agents = λ k.
              has-insert k name _ _ (ap (has name) unchanged ∙ there)
              ∙ ap (has k) unchanged
              ∙ fixed.holdings.agents k;
        };
      }

  -- Once the interface is open, whatever the user does in it, however the worker's steps fall in
  -- between, and whatever code the agents run: the loaded plan, the set of endpoints and the set of
  -- agents stay as the start of the program has left them.
  pub Operates-SameHoldings :
      (service : AppService S) (w : Session S)
      → Operates (record { app_service = service; controller = new_controller }) w
      → SameHoldings service w.app_service
  Operates-SameHoldings service w operates =
      (Operates-Fixed _ w operates (record { busy = refl; reads = tt })).holdings
