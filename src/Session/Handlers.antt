-- ===== src/Session/Handlers.antt =====
-- The arms of `step` in session.rs, one function to an event.
pub mod Episodes
pub mod Claims
pub mod Takeover
pub mod Leases
pub mod Plane
pub mod Windows
