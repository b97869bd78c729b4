-- ===== src/Relay.antt =====
-- apps/relay: the relay between hosts and browsers.
pub mod Journal
pub mod Devices
pub mod Sockets
pub mod Config
pub mod Server
