-- ===== src/Session.antt =====
-- The composed session machine, waddle-core/crates/waddle-fsm/src/session.rs.
pub mod Episode
pub mod Emission
pub mod Effect
pub mod Event
pub mod State
pub mod Phases
pub mod Context
pub mod Reset
pub mod Engage
pub mod Handlers
pub mod Machine
pub mod Safety
pub mod Guarantees
pub mod Examples
mod Endings
