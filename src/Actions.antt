-- ===== src/Actions.antt =====
-- Declared action spaces and the actions that they admit, space.rs and action.rs of
-- waddle-core/crates/waddle-types/src. `F` stands for `f64`.
pub mod Errors
pub mod Space
pub mod Message
pub mod Flatten
pub mod Step
pub mod Unflatten
mod Examples
