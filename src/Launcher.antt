-- ===== src/Launcher.antt =====
-- server/src/launcher.rs: launching Spark sessions, one child module for each part of it.
pub mod Names
pub mod Conf
pub mod Files
pub mod Command
pub mod Launch
pub mod Setup
