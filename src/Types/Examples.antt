-- ===== src/Types/Examples.antt =====
-- Deadlines of time.rs on concrete instants.
use waddle_sdk.Prelude.{◌≡◌, refl}
use waddle_sdk.Prelude.Int.{pos, ◌+ℤ◌}
use waddle_sdk.Types.Time.{saturating_add, i64_max}

latest_deadline : saturating_add i64_max (pos 7) ≡ i64_max
unfolding saturating_add ◌+ℤ◌
latest_deadline = refl
