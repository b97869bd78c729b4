-- ===== src/Web.antt =====
-- apps/web: the browser's connection, its commands and its check of approvals.
pub mod Integrity
pub mod Connection
pub mod Commands
