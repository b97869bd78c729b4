-- ===== src/Protocol.antt =====
-- packages/protocol: the events, commands and frames, their validation, and the state reducer.
pub mod Schema
pub mod View
pub mod Approval
pub mod Handlers
pub mod State
