-- ===== src/Cmd.antt =====
-- The package cmd: the command line's choices.
pub mod Profiling
pub mod Transport
pub mod Feedback
pub mod Priority
pub mod Reports
pub mod DataSource
pub mod Setup
pub mod Connect
pub mod Start
pub mod Delivery
pub mod Execute
