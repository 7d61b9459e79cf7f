-- ===== src/Actions/Errors.antt =====
-- waddle-core/crates/waddle-types/src/error.rs, and results that carry it.
use waddle_sdk.Prelude.{ℕ, Option, none, some, String}
use waddle_sdk.Prelude.Int.{ℤ}

pub data TypesError : Type 0 where
  missing_field : String → TypesError
  invalid_enum : (field : String) (value : ℤ) → TypesError
  empty_frame : TypesError
  must_declare : (field : String) → TypesError
  dimension_mismatch : (expected got : ℕ) → TypesError
  composite_depth : (part : String) → TypesError
  duplicate_part unknown_part missing_part : String → TypesError
  opaque_not_executable noop_not_executable : TypesError
  invalid_value : (field reason : String) → TypesError

pub data Result (A : Type 0) : Type 0 where
  ok : A → Result A
  err : TypesError → Result A

infixl 5 ◌>>=◌
abbrev pub ◌>>=◌ : {A B : Type 0} → Result A → (A → Result B) → Result B
ok a >>= f = f a
err e >>= f = err e

abbrev pub ok_or : {A : Type 0} → Option A → TypesError → Result A
ok_or none e = err e
ok_or (some a) e = ok a
