-- ===== src/Gate.antt =====
-- waddle-core/crates/waddle-gate/src: what leaves the gate, tick by tick. `F` stands for `f64` and
-- `G` for `f32`.
pub mod Action
pub mod Jitter
pub mod Plan
pub mod Blend
pub mod Stats
pub mod Tick
pub mod DualWrite
mod Examples
