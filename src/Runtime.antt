-- ===== src/Runtime.antt =====
-- The threads of the running hub: src/app/App.cpp (`run`), src/app/shutdown_controller,
-- src/app/signal_handler, and the thread of src/app/ui_handler/CliUiHandler.cpp with CliRoutine.cpp.
pub mod State
pub mod Threads
pub mod Actions
pub mod Places
pub mod Invariant
pub mod Termination
pub mod Progress
pub mod Safe
pub mod Shutdown
pub mod Completion
pub mod Hazards
