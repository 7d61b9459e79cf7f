-- ===== src/Gate/DualWrite.antt =====
-- Dual-write detection, dualwrite.rs of waddle-core/crates/waddle-gate/src.
pub mod Reference
use waddle_sdk.Prelude.{
  ℕ, ◌+◌, ◌%◌, ◌^◌, Bool, true, false, ◌||◌, not, Option, none, some, List, [], ◌∷◌, if◌then◌else◌,
}
use waddle_sdk.Prelude.Int.{ℤ, pos, ltb_ℤ, max_ℤ}
use waddle_sdk.Prelude.Float.{F64Ops}
use waddle_sdk.Types.Time.{MonoNs}
use waddle_sdk.Types.Wrapping.{sub_i64}

pub record DualWriteVerdict (F : Type 0) : Type 0 where
  pub divergence_metric : F
  pub window_ns : ℤ

pub record DivergenceDetector (F : Type 0) : Type 0 where
  pub threshold : F
  pub window_ns : ℤ
  pub run_start : Option MonoNs
  pub run_sum : F
  pub run_samples : ℕ
  pub fired : Bool

-- The arguments of `feed`.
pub record Sample (F : Type 0) : Type 0 where
  pub commanded : List F
  pub observed : List F
  pub at : MonoNs

-- `run_start.get_or_insert(at)`.
abbrev pub get_or : Option MonoNs → MonoNs → MonoNs
get_or none at = at
get_or (some start) at = start

abbrev is_empty : {A : Type 0} → List A → Bool
is_empty [] = true
is_empty (_ ∷ _) = false

-- `commanded.len().min(observed.len()) == 0`.
abbrev pub incomparable : {F : Type 0} → Sample F → Bool
incomparable s = is_empty s.commanded || is_empty s.observed

module _ {F : Type 0} (f64 : F64Ops F) where
  unfoldable pub new : F → ℤ → DivergenceDetector F
  new threshold window_ns = record {
    threshold = threshold;
    window_ns = max_ℤ window_ns (pos 1);
    run_start = none;
    run_sum = f64.zero;
    run_samples = 0;
    fired = false;
  }

  -- The squared differences over the shorter length, summed from the left onto `acc`.
  unfoldable pub sum_squares : F → List F → List F → F
  sum_squares acc [] os = acc
  sum_squares acc (c ∷ cs) [] = acc
  sum_squares acc (c ∷ cs) (o ∷ os) =
      sum_squares (f64.add acc (f64.mul (f64.sub c o) (f64.sub c o))) cs os

  unfoldable pub l2 : Sample F → F
  unfolding sum_squares
  l2 s = f64.sqrt (sum_squares f64.zero s.commanded s.observed)

  abbrev pub quiet : DivergenceDetector F → DivergenceDetector F
  quiet d = record d { run_start = none; run_sum = f64.zero; run_samples = 0 }

  -- A diverging sample joins the run.
  abbrev pub extended : DivergenceDetector F → Sample F → DivergenceDetector F
  extended d s = record d {
    run_start = some (get_or d.run_start s.at);
    run_sum = f64.add d.run_sum (l2 s);
    run_samples = (d.run_samples + 1) % 2 ^ 32;
  }

  abbrev pub elapsed : DivergenceDetector F → Sample F → ℤ
  elapsed d s = sub_i64 s.at (get_or d.run_start s.at)

  abbrev pub verdict : DivergenceDetector F → Sample F → DualWriteVerdict F
  verdict d s = record {
    divergence_metric =
        f64.div (f64.add d.run_sum (l2 s)) (f64.of_i64 (pos ((d.run_samples + 1) % 2 ^ 32)));
    window_ns = elapsed d s;
  }

  unfoldable pub feed :
      DivergenceDetector F → Sample F → DivergenceDetector F × Option (DualWriteVerdict F)
  unfolding l2 sub_i64
  feed d s =
      if d.fired || incomparable s
      then (d, none)
      else if f64.le (l2 s) d.threshold
      then (quiet d, none)
      else if not (ltb_ℤ (elapsed d s) d.window_ns)
      then (record (extended d s) { fired = true }, some (verdict d s))
      else (extended d s, none)

  unfoldable pub reset : DivergenceDetector F → DivergenceDetector F
  reset d = record d { fired = false; run_start = none; run_sum = f64.zero; run_samples = 0 }
