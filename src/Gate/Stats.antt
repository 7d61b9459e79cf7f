-- ===== src/Gate/Stats.antt =====
-- Gate-tick statistics, stats.rs of waddle-core/crates/waddle-gate/src. The atomics are read and
-- written by one caller at a time here.
pub mod Percentiles
use waddle_sdk.Prelude.{
  ℕ, zero, suc, ◌+◌, ◌*◌, ◌/◌, ◌%◌, ◌^◌, Bool, true, false, ◌&&◌, not, Option, none, some, List, [],
  ◌∷◌, ltb, if◌then◌else◌,
}
use waddle_sdk.Prelude.Int.{ℤ, pos, ltb_ℤ}
use waddle_sdk.Outcome.{Outcome, done, panicked, expect, ◌>>=◌}
use waddle_sdk.Types.Time.{MonoNs}
use waddle_sdk.Types.Wrapping.{sub_i64}

abbrev pub slots : ℕ
slots = 128

pub record TickStats : Type 0 where
  pub last_tick_ns : ℤ
  pub deltas : List ℤ
  pub count : ℕ

pub record TickSnapshot : Type 0 where
  pub p50_ns : ℤ
  pub p95_ns : ℤ
  pub max_ns : ℤ
  pub samples : ℕ

abbrev pub replicate : ℕ → ℤ → List ℤ
replicate zero x = []
replicate (suc n) x = x ∷ replicate n x

unfoldable pub new : TickStats
new = record { last_tick_ns = pos 0; deltas = replicate slots (pos 0); count = 0 }

-- A store at an index; one past the end would panic in the source.
abbrev pub set : List ℤ → ℕ → ℤ → List ℤ
set [] i x = []
set (y ∷ ys) zero x = x ∷ ys
set (y ∷ ys) (suc i) x = y ∷ set ys i x

abbrev is_zero : ℤ → Bool
is_zero n = not (ltb_ℤ n (pos 0)) && not (ltb_ℤ (pos 0) n)

unfoldable pub record_tick : TickStats → MonoNs → TickStats
unfolding sub_i64
record_tick s now = if is_zero s.last_tick_ns then record s { last_tick_ns = now } else record {
  last_tick_ns = now;
  deltas = set s.deltas (s.count % slots) (sub_i64 now s.last_tick_ns);
  count = (s.count + 1) % 2 ^ 64;
}

unfoldable pub last_tick : TickStats → Option MonoNs
last_tick s = if is_zero s.last_tick_ns then none else some s.last_tick_ns

abbrev pub insert_sorted : ℤ → List ℤ → List ℤ
insert_sorted x [] = x ∷ []
insert_sorted x (y ∷ ys) =
    let rest = insert_sorted x ys in if ltb_ℤ y x then y ∷ rest else x ∷ y ∷ ys

-- `sort_unstable` on integers: the ascending list of the same numbers.
abbrev pub sort : List ℤ → List ℤ
sort [] = []
sort (x ∷ xs) = insert_sorted x (sort xs)

abbrev pub get_elem? : List ℤ → ℕ → Option ℤ
get_elem? [] i = none
get_elem? (x ∷ xs) zero = some x
get_elem? (x ∷ xs) (suc i) = get_elem? xs i

abbrev pub take : ℕ → List ℤ → List ℤ
take zero xs = []
take (suc n) [] = []
take (suc n) (x ∷ xs) = x ∷ take n xs

abbrev pub last : List ℤ → Option ℤ
last [] = none
last (x ∷ []) = some x
last (x ∷ y ∷ ys) = last (y ∷ ys)

abbrev pub filled : TickStats → ℕ
filled s = if ltb s.count slots then s.count else slots

unfoldable pub snapshot : TickStats → Outcome TickSnapshot
snapshot s =
    if ltb 0 (filled s)
    then (do
      let vals = sort (take (filled s) s.deltas)
      p50 ← expect (get_elem? vals (filled s / 2)) "index out of bounds"
      p95 ← expect (get_elem? vals (filled s * 95 / 100)) "index out of bounds"
      greatest ← expect (last vals) "non-empty"
      done (record { p50_ns = p50; p95_ns = p95; max_ns = greatest; samples = filled s }))
    else done (record { p50_ns = pos 0; p95_ns = pos 0; max_ns = pos 0; samples = 0 })
