-- ===== src/Runtime.antt =====
-- The runtime's reducer and what it drives, waddle-core/crates/waddle-runtime/src.
pub mod Acks
pub mod Timers
pub mod Proprio
pub mod Rows
pub mod Recording
pub mod Verbs
pub mod Mirror
pub mod Reducer
pub mod Directives
pub mod Bypass
mod Examples
