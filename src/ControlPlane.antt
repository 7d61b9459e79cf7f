-- ===== src/ControlPlane.antt =====
-- The control-plane client, waddle-core/crates/waddle-controlplane/src: its reconnect delays, the offline
-- buffer, the bound on messages in flight, and the heartbeat's round-trip time.
pub mod Backoff
pub mod Buffer
pub mod Inflight
pub mod Heartbeat
pub mod Messages
pub mod Client
mod Examples
