-- ===== src/Session/Guarantees.antt =====
-- What single components of the session machine guarantee.
pub mod GatePlan
pub mod Partition
pub mod Freeze
pub mod Admission
pub mod Terminal
