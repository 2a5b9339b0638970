-- ===== src/Manager/Operations.antt =====
-- Histories of the whole interface of src/manager/Manager.cpp, with the code of the agents.
use mavlink_hub.Base.{String, Option-cases, inl, inr}
use mavlink_hub.Base.Dict.{Dict, lookup}
use mavlink_hub.Sdk.{Sdk}
use mavlink_hub.Sdk
use mavlink_hub.Manager.Types.{UserPlan}
use mavlink_hub.Manager.State.{Manager, Registries, empty_manager}
use mavlink_hub.Manager.Requests.{perform}
use mavlink_hub.Manager.Agents.{add_agent, edit_agent, start_agent, stop_agent, remove_agent}
use mavlink_hub.Manager.Execute.{execute_plan}
use mavlink_hub.Manager.Calls.{Call, Calls, here, next, agents_change}
use mavlink_hub.Manager.Grows.{Grows-Calls}
use mavlink_hub.Manager.Program.{
  perform-Grows, add_agent-Grows, edit_agent-Grows, start_agent-Grows, stop_agent-Grows,
  execute_plan-Grows,
}
use mavlink_hub.Manager.Identity.{IsIdentified}
use mavlink_hub.Manager.Lifetime.{Calls-IsIdentified}

module _ (S : Sdk) where
  -- One operation of the manager, or a stretch of an agent's own code.
  pub data Operation : Manager S → Manager S → Type 0 where
    calls : {m n : Manager S} → Call S m n → Operation m n
    adds_agent :
        (m : Manager S) (reg : Registries S) (name type : String) (config : Dict String)
        → Operation m (add_agent S reg name type config m).0
    edits_agent :
        (m : Manager S) (reg : Registries S) (name type : String) (config : Dict String)
        → Operation m (edit_agent S reg name type config m).0
    starts_agent : (m : Manager S) (name : String) → Operation m (start_agent S name m).0
    stops_agent : (m : Manager S) (name : String) → Operation m (stop_agent S name m).0
    removes_agent : (m : Manager S) (name : String) → Operation m (remove_agent S name m).0
    executes_plan :
        (m : Manager S) (reg : Registries S) (plan : UserPlan)
        → Operation m (execute_plan S reg plan m).0
    runs :
        (m : Manager S) (name : String) (code : Sdk.Calls S (Unit {0}))
        → Operation m (perform S name code m).0

  pub data Operations (m : Manager S) : Manager S → Type 0 where
    none_yet : Operations m m
    then_one : {n n' : Manager S} → Operations m n → Operation n n' → Operations m n'

  Calls-trans : (m n k : Manager S) → Calls S m n → Calls S n k → Calls S m k
  Calls-trans m n k a here = a
  Calls-trans m n k a (next {n = l} b call) = next (Calls-trans m n l a b) call

  remove_agent-Calls : (name : String) (m : Manager S) → Calls S m (remove_agent S name m).0
  unfolding remove_agent
  remove_agent-Calls name m = elim (Option-cases (lookup name m.agents)) [
    | inl e ↦ rw (e, remove_agent) here
    | inr (agent, e) ↦
        rw (e, remove_agent)
          (Calls-trans m _ _ (next here (agents_change m _))
            (Grows-Calls S _ _ (perform-Grows name (S.destroy agent) _)))
  ]

  Operation-Calls : (m n : Manager S) → Operation m n → Calls S m n
  Operation-Calls m n (calls call) = next here call
  Operation-Calls m n (adds_agent _ reg name type config) =
      Grows-Calls S m n (add_agent-Grows reg name type config m)
  Operation-Calls m n (edits_agent _ reg name type config) =
      Grows-Calls S m n (edit_agent-Grows reg name type config m)
  Operation-Calls m n (starts_agent _ name) = Grows-Calls S m n (start_agent-Grows name m)
  Operation-Calls m n (stops_agent _ name) = Grows-Calls S m n (stop_agent-Grows name m)
  Operation-Calls m n (removes_agent _ name) = remove_agent-Calls name m
  Operation-Calls m n (executes_plan _ reg plan) = Grows-Calls S m n (execute_plan-Grows reg plan m)
  Operation-Calls m n (runs _ name code) = Grows-Calls S m n (perform-Grows name code m)

  Operations-Calls : (m n : Manager S) → Operations m n → Calls S m n
  Operations-Calls m n none_yet = here
  Operations-Calls m n (then_one {n = k} before operation) =
      Calls-trans m k n (Operations-Calls m k before) (Operation-Calls k n operation)

  -- After any history of a new manager, of its operations on endpoints, handles, agents and plans
  -- and of the agents' own code: no two endpoints have the same name, no two have the same object,
  -- and every object was made before the next one.
  pub Operations-IsIdentified : (m : Manager S) → Operations (empty_manager S) m → IsIdentified S m
  Operations-IsIdentified m operations =
      Calls-IsIdentified S m (Operations-Calls (empty_manager S) m operations)
