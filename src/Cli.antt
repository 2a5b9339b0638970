-- ===== src/Cli.antt =====
-- src/app/ui_handler: the state of the terminal interface and what it asks of the service.
pub mod Controller
pub mod Run
pub mod Menu
pub mod View
pub mod ViewLaws
pub mod InfoBox
pub mod Labelled
pub mod Labels
pub mod Laws
pub mod Events
pub mod Screen
pub mod ScreenLaws
pub mod Operation
