-- ===== src/Tests.antt =====
-- Runs of the modelled code at concrete inputs.
pub mod Data
pub mod Auth
pub mod Proxy
pub mod Upstream
pub mod Router
pub mod Run
pub mod Setup
pub mod Client
pub mod Plugin
pub mod PythonClient
pub mod Migration
pub mod Routes
pub mod Launcher
pub mod Server
pub mod Lifecycle
