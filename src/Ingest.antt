-- ===== src/Ingest.antt =====
-- Stamping at arrival, waddle-core/crates/waddle-ingest/src: clock-offset estimation, the test clock
-- and the hub.
pub mod Offset
pub mod Clock
pub mod Hub
mod Examples
