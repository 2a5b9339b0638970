-- ===== src/Manager/Steps.antt =====
-- What each operation of src/manager/Manager.cpp does to the names of endpoints and to the agents.
use mavlink_hub.Base.{String, ◌≡◌, true, false, ◌||◌, ◌==◌, eq_iff, arith}
use mavlink_hub.Base.Dict.{Dict, lookup, lookup-insert, lookup-insert_self}
use mavlink_hub.Sdk.{Sdk}
use mavlink_hub.Manager.State.{Manager, Registries}
use mavlink_hub.Manager.Endpoints.{add_mavlink_endpoint, connect_mavlink_endpoint}
use mavlink_hub.Manager.Agents.{add_agent, start_agent}
use mavlink_hub.Manager.Frame.{has, has-emplace, has-insert, perform-agents, perform-has}

module _ (S : Sdk) (reg : Registries S) where
  pub add_endpoint-has :
      (n k : String) (m : Manager S)
      → has k (add_mavlink_endpoint S reg n m).0.endpoint_db ≡ (has k m.endpoint_db || n == k)
  unfolding add_mavlink_endpoint
  add_endpoint-has n k m = grind (arith, has-emplace, eq_iff n k)

  pub add_agent-lookup_ne :
      (n type : String) (config : Dict String) (k : String) (m : Manager S)
      → (n == k) ≡ false
      → lookup k (add_agent S reg n type config m).0.agents ≡ lookup k m.agents
  unfolding add_agent
  add_agent-lookup_ne n type config k m h = grind (arith, perform-agents, lookup-insert)

  -- Agents are never lost by an add.
  pub add_agent-has :
      (n type : String) (config : Dict String) (k : String) (m : Manager S)
      → has k m.agents ≡ true
      → has k (add_agent S reg n type config m).0.agents ≡ true
  unfolding add_agent
  add_agent-has n type config k m h = grind (arith, perform-agents, lookup-insert)

  pub add_agent-success :
      (n type : String) (config : Dict String) (m : Manager S)
      → (add_agent S reg n type config m).1.success ≡ true
      → has n (add_agent S reg n type config m).0.agents ≡ true
  unfolding add_agent
  add_agent-success n type config m h = grind (arith, perform-agents, lookup-insert_self)

  pub add_agent-names :
      (n type : String) (config : Dict String) (k : String) (m : Manager S)
      → has k (add_agent S reg n type config m).0.endpoint_db ≡ has k m.endpoint_db
  unfolding add_agent
  add_agent-names n type config k m = grind (arith, perform-has)

module _ (S : Sdk) where
  pub connect_endpoint-has :
      (n type : String) (config : Dict String) (k : String) (m : Manager S)
      → has k (connect_mavlink_endpoint S n type config m).0.endpoint_db ≡ has k m.endpoint_db
  unfolding connect_mavlink_endpoint
  connect_endpoint-has n type config k m = grind (arith, has-insert)

  pub start_agent-lookup_ne :
      (n k : String) (m : Manager S)
      → (n == k) ≡ false
      → lookup k (start_agent S n m).0.agents ≡ lookup k m.agents
  unfolding start_agent
  start_agent-lookup_ne n k m h = grind (arith, perform-agents, lookup-insert)

  pub start_agent-names :
      (n k : String) (m : Manager S) → has k (start_agent S n m).0.endpoint_db ≡ has k m.endpoint_db
  unfolding start_agent
  start_agent-names n k m = grind (arith, perform-has)

  pub start_agent-has :
      (n k : String) (m : Manager S) → has k (start_agent S n m).0.agents ≡ has k m.agents
  unfolding start_agent
  start_agent-has n k m = grind (arith, perform-agents, has-insert)
