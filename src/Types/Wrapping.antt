-- ===== src/Types/Wrapping.antt =====
-- `i64` arithmetic as a release build has it: the exact integer, wrapped into the `i64` range.
use waddle_sdk.Prelude.{ℕ, ◌-◌, ◌%◌, ◌^◌, ◌≡◌, ltb, if◌then◌else◌, arith}
use waddle_sdk.Prelude.Int.{ℤ, pos, negsuc, ◌+ℤ◌, ◌-ℤ◌, ◌≤ℤ◌}
use waddle_sdk.Types.Time.{i64_max, i64_min}

-- The `i64` of a 64-bit pattern.
abbrev signed : ℕ → ℤ
signed w = if ltb w (2 ^ 63) then pos w else negsuc (2 ^ 64 - w - 1)

abbrev wrap : ℤ → ℤ
wrap (pos n) = signed (n % 2 ^ 64)
wrap (negsuc n) = signed (2 ^ 64 - 1 - n % 2 ^ 64)

unfoldable pub add_i64 : ℤ → ℤ → ℤ
add_i64 a b = wrap (a +ℤ b)

unfoldable pub sub_i64 : ℤ → ℤ → ℤ
sub_i64 a b = wrap (a -ℤ b)

wrap_exact : (n : ℤ) → i64_min ≤ℤ n → n ≤ℤ i64_max → wrap n ≡ n
wrap_exact (pos n) lo hi = ground arith
wrap_exact (negsuc n) lo hi = ground arith

pub add_i64_exact : (a b : ℤ) → i64_min ≤ℤ a +ℤ b → a +ℤ b ≤ℤ i64_max → add_i64 a b ≡ a +ℤ b
unfolding add_i64
add_i64_exact a b lo hi = wrap_exact (a +ℤ b) lo hi

pub sub_i64_exact : (a b : ℤ) → i64_min ≤ℤ a -ℤ b → a -ℤ b ≤ℤ i64_max → sub_i64 a b ≡ a -ℤ b
unfolding sub_i64
sub_i64_exact a b lo hi = wrap_exact (a -ℤ b) lo hi
