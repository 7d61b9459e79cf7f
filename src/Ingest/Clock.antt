-- ===== src/Ingest/Clock.antt =====
-- The manually advanced clock of waddle-core/crates/waddle-ingest/src/clock.rs, and
-- `ClockAnchor::locate` of waddle-core/crates/waddle-types/src/time.rs.
use waddle_sdk.Prelude.Int.{ℤ, pos}
use waddle_sdk.Types.Time.{MonoNs, Stamp}
use waddle_sdk.Types.Wrapping.{add_i64, sub_i64}

pub record ClockAnchor : Type 0 where
  pub monotonic_ns : MonoNs
  pub unix_ns : ℤ

unfoldable pub locate : ClockAnchor → MonoNs → ℤ
unfolding add_i64 sub_i64
locate anchor t = add_i64 t (sub_i64 anchor.unix_ns anchor.monotonic_ns)

pub record FakeClock : Type 0 where
  pub mono : MonoNs
  pub anchor : ClockAnchor

unfoldable pub new : MonoNs → ℤ → FakeClock
new start unix_at_zero = record {
  mono = start;
  anchor = record { monotonic_ns = pos 0; unix_ns = unix_at_zero };
}

unfoldable pub advance : FakeClock → ℤ → FakeClock
unfolding add_i64
advance c ns = record c { mono = add_i64 c.mono ns }

unfoldable pub set : FakeClock → MonoNs → FakeClock
set c t = record c { mono = t }

unfoldable pub stamp_now : FakeClock → Stamp
unfolding locate
stamp_now c = record { mono = c.mono; epoch = locate c.anchor c.mono }
