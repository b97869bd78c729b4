-- ===== src/Agent.antt =====
-- apps/agent: the agent that runs beside the coding tool of a host.
pub mod RelayClient
pub mod Demo
pub mod AppServer
pub mod Codex
pub mod Compatibility
pub mod Config
pub mod Controller
