-- ===== src/Ingest/Offset.antt =====
-- The clock-offset estimator, waddle-core/crates/waddle-ingest/src/offset.rs.
pub mod Window
use waddle_sdk.Prelude.{ℕ, Option, none, some, List, [], ◌∷◌, ltb, if◌then◌else◌}
use waddle_sdk.Prelude.Int.{ℤ, ltb_ℤ}
use waddle_sdk.Prelude.Recent.{push_bounded}
use waddle_sdk.Types.Time.{MonoNs}
use waddle_sdk.Types.Wrapping.{add_i64, sub_i64}

pub record SourceOffsetEstimator : Type 0 where
  pub window : ℕ
  pub deltas : List ℤ

unfoldable pub new : ℕ → SourceOffsetEstimator
new window = record { window = if ltb window 1 then 1 else window; deltas = [] }

abbrev pub default : SourceOffsetEstimator
default = new 256

unfoldable pub observe : SourceOffsetEstimator → ℤ → MonoNs → SourceOffsetEstimator
unfolding sub_i64
observe e source_ts_ns host_recv = record e {
  deltas = push_bounded e.window (sub_i64 host_recv source_ts_ns) e.deltas;
}

-- `iter().copied().min()`.
abbrev pub least : List ℤ → Option ℤ
least [] = none
least (x ∷ xs) = elim (least xs) [ none ↦ some x | some m ↦ some (if ltb_ℤ m x then m else x) ]

unfoldable pub offset_ns : SourceOffsetEstimator → Option ℤ
offset_ns e = least e.deltas

-- `source_ts_ns + self.offset_ns()?`.
abbrev pub shift : ℤ → Option ℤ → Option MonoNs
shift source_ts_ns none = none
shift source_ts_ns (some offset) = some (add_i64 source_ts_ns offset)

unfoldable pub map_ts : SourceOffsetEstimator → ℤ → Option MonoNs
unfolding offset_ns add_i64
map_ts e source_ts_ns = shift source_ts_ns (offset_ns e)
