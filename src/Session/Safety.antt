-- ===== src/Session/Safety.antt =====
-- No event makes the session machine panic.
pub mod Invariant
pub mod Closing
pub mod Resets
pub mod Windows
pub mod Episodes
pub mod Takeover
pub mod Claims
pub mod Leases
pub mod Minting
pub mod Timers
pub mod Plane
pub mod Steps
pub mod Reached
pub mod Stop
