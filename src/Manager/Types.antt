-- ===== src/Manager/Types.antt =====
-- src/manager/types: plans and the reports on them.
use mavlink_hub.Base.{ℕ, String, Bool}
use mavlink_hub.Base.Dict.{Dict}
use mavlink_hub.Common.{OperationResult}

pub record MavlinkEndpointEntry : Type 0 where
  pub type : String
  pub config : Dict String
  pub connect_on_create : Bool

pub record AgentEntry : Type 0 where
  pub type : String
  pub config : Dict String
  pub start_on_create : Bool

-- `unnamed`: a value that no enumerator names, as a field that was never set can hold.
pub data UserPlanPolicy : Type 0 where
  discard best_effort : UserPlanPolicy
  unnamed : ℕ → UserPlanPolicy

pub record UserPlan : Type 0 where
  pub endpoint_list : Dict MavlinkEndpointEntry
  pub agent_list : Dict AgentEntry
  pub policy : UserPlanPolicy

pub record ExecutionResultList : Type 0 where
  pub endpoint_plan_result : Dict OperationResult
  pub agent_plan_result : Dict OperationResult
