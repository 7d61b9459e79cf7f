-- ===== src/ControlPlane/Backoff.antt =====
-- Reconnect delays, waddle-core/crates/waddle-controlplane/src/backoff.rs.
use waddle_sdk.Prelude.{ℕ, zero, suc, List, [], ◌∷◌}
use waddle_sdk.Prelude.Int.{ℤ, pos}

pub record Backoff : Type 0 where
  pub steps_ns : List ℤ
  pub plateau_ns : ℤ

unfoldable pub production : Backoff
production = record {
  steps_ns = pos 1000000000 ∷ pos 4000000000 ∷ pos 16000000000 ∷ [];
  plateau_ns = pos 16000000000;
}

-- `get(attempt).copied().unwrap_or(plateau)`.
abbrev pub step_or : ℤ → List ℤ → ℕ → ℤ
step_or plateau [] attempt = plateau
step_or plateau (x ∷ xs) zero = x
step_or plateau (x ∷ xs) (suc attempt) = step_or plateau xs attempt

unfoldable pub delay_ns : Backoff → ℕ → ℤ
delay_ns b attempt = step_or b.plateau_ns b.steps_ns attempt
