-- ===== src/Types/Time.antt =====
-- waddle-core/crates/waddle-types/src/time.rs: session-monotonic nanoseconds, an `i64`.
use waddle_sdk.Prelude.{◌^◌, ◌-◌, ◌≡◌, if◌then◌else◌, arith}
use waddle_sdk.Prelude.Int.{ℤ, pos, negsuc, ◌+ℤ◌, ◌≤ℤ◌, ltb_ℤ, +ℤ_parts}

abbrev pub MonoNs : Type 0
MonoNs = ℤ

abbrev pub i64_max : ℤ
i64_max = pos (2 ^ 63 - 1)

abbrev pub i64_min : ℤ
i64_min = negsuc (2 ^ 63 - 1)

abbrev clamp : ℤ → ℤ
clamp n = if ltb_ℤ i64_max n then i64_max else if ltb_ℤ n i64_min then i64_min else n

-- `i64::saturating_add`.
unfoldable pub saturating_add : MonoNs → ℤ → MonoNs
saturating_add at ns = clamp (at +ℤ ns)

-- A deadline is always an `i64`, it is the exact sum whenever the sum is an `i64`, and adding a
-- wait that is not negative to an `i64` instant never gives an earlier instant.
saturating_add_lem :
    (at ns : ℤ)
    → (i64_min ≤ℤ saturating_add at ns)
      × (saturating_add at ns ≤ℤ i64_max)
      × (i64_min ≤ℤ at +ℤ ns → at +ℤ ns ≤ℤ i64_max → saturating_add at ns ≡ at +ℤ ns)
      × (at ≤ℤ i64_max → pos 0 ≤ℤ ns → at ≤ℤ saturating_add at ns)
unfolding saturating_add
saturating_add_lem at ns = (
  ground (arith, +ℤ_parts at ns),
  ground (arith, +ℤ_parts at ns),
  ground (arith, +ℤ_parts at ns),
  ground (arith, +ℤ_parts at ns),
)

-- An instant on both clocks: the session's and the Unix epoch's.
pub record Stamp : Type 0 where
  pub mono : MonoNs
  pub epoch : ℤ
