-- ===== src/Registry.antt =====
-- src/agent_registry: AgentRegistry (admin access) and AgentRegistryUser (a read-only view).
-- A map of definitions lies at an address of `Memory`. The registry owns the address, and a view
-- holds a reference to the same one.
pub mod Admin
pub mod User
pub mod Laws
pub mod Refinement
