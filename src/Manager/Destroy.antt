-- ===== src/Manager/Destroy.antt =====
-- `~Manager` of src/manager/Manager.cpp. Of the members of ManagerImpl the last, `agents`, is destroyed
-- first: the destructor of each agent runs its own code, with all endpoints still there.
use mavlink_hub.Base.{[], ◌∷◌}
use mavlink_hub.Base.Dict.{Dict}
use mavlink_hub.Sdk.{Sdk}
use mavlink_hub.Manager.State.{Manager}
use mavlink_hub.Manager.Requests.{perform}
use mavlink_hub.Manager.Grows.{Grows, grown}
use mavlink_hub.Manager.Program.{Grows-trans, perform-Grows}

module _ (S : Sdk) where
  -- The agents are destroyed one after the other; the manager is as their code leaves it.
  unfoldable pub destroy_agents : Dict S.Agent → Manager S → Manager S
  destroy_agents [] m = m
  destroy_agents ((name, agent) ∷ agents) m =
      destroy_agents agents (perform S name (S.destroy agent) m).0

  pub destroy_agents-Grows :
      (agents : Dict S.Agent) (m : Manager S) → Grows S m (destroy_agents agents m)
  unfolding destroy_agents
  destroy_agents-Grows [] m = grown
  destroy_agents-Grows ((name, agent) ∷ agents) m =
      Grows-trans m _ _ (perform-Grows name (S.destroy agent) m) (destroy_agents-Grows agents _)
