-- ===== src/Prelude/Float.antt =====
-- The floating-point numbers of the source. Their operations are arguments of what uses them: the
-- model assumes nothing about rounding, NaN or signed zeros.
pub mod Samples
use mathlib.Core.Bool.{Bool}
use waddle_sdk.Prelude.Int.{ℤ}

pub record F64Ops (F : Type 0) : Type 0 where
  pub zero : F
  pub one : F
  pub add : F → F → F
  pub sub : F → F → F
  pub mul : F → F → F
  pub div : F → F → F
  pub sqrt : F → F
  pub lt : F → F → Bool
  pub le : F → F → Bool
  pub clamp : F → F → F → F
  pub of_i64 : ℤ → F

pub record F32Ops (G F : Type 0) : Type 0 where
  pub zero : G
  pub one : G
  pub two : G
  pub three : G
  pub sub : G → G → G
  pub mul : G → G → G
  pub lt : G → G → Bool
  pub ge : G → G → Bool
  pub clamp : G → G → G → G
  pub narrow : F → G
  pub widen : G → F
