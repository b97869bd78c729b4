-- ===== src/Agent/Codex.antt =====
-- apps/agent/src/codex-adapter.ts: the adapter between the protocol and the Codex process.
pub mod Values
pub mod Limits
pub mod Adapter
pub mod Requests
pub mod Notices
pub mod Approvals
pub mod Integrity
pub mod Waiting
pub mod Prompts
mod Tests
