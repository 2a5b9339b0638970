-- ===== src/Tests.antt =====
-- The theorems of the library at concrete inputs.
pub mod Fixtures
pub mod Documents
pub mod ManagerTests
pub mod JsonTests
pub mod LoaderTests
pub mod ServiceTests
pub mod CliTests
pub mod ArgsTests
pub mod RuntimeTests
pub mod LifetimeTests
pub mod ViewTests
pub mod ProgramTests
pub mod SignalTests
pub mod OrderTests
pub mod LibraryTests
