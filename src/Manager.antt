-- ===== src/Manager.antt =====
-- src/manager: the owner of endpoints and agents. `State` is its data; `Queries`, `Users`,
-- `Endpoints`, `Agents`, `Plan` and `Execute` are its operations; `Handles` is MavlinkEndpointUser
-- and `Requests` is how an agent calls back into the manager. Proofs stand in the modules from `Frame` on.
pub mod Types
pub mod State
pub mod Queries
pub mod Users
pub mod Handles
pub mod Requests
pub mod Endpoints
pub mod Agents
pub mod Plan
pub mod Execute
pub mod Frame
pub mod Steps
pub mod Validity
pub mod Discard
pub mod Effect
pub mod Applied
pub mod Counts
pub mod Handled
pub mod History
pub mod Preserved
pub mod Scripts
pub mod Calls
pub mod Evolution
pub mod Identity
pub mod Grows
pub mod Program
pub mod Operations
pub mod Destroy
pub mod Range
pub mod Order
pub mod Lifetime
pub mod Stale
pub mod Reports
