-- ===== src/Prelude/Float/Samples.antt =====
-- Thousandths in place of floats, for the examples.
use Prim.Native.Nat.{ℕ, ◌+◌, ◌*◌, ◌/◌}
use mathlib.Core.Bool.{Bool, not}
use waddle_sdk.Prelude.Tests.{if◌then◌else◌}
use waddle_sdk.Prelude.Int.{ℤ, pos, negsuc, ◌+ℤ◌, ◌-ℤ◌, sub_ℕ, pos_part, neg_part, ltb_ℤ}
use waddle_sdk.Prelude.Float.{F64Ops, F32Ops}

abbrev scaled : ℤ → ℕ → ℕ → ℤ
scaled a m d = sub_ℕ (pos_part a * m / d) (neg_part a * m / d)

abbrev times : ℤ → ℤ → ℤ
times a (pos n) = scaled a n 1000
times a (negsuc n) = scaled (pos 0 -ℤ a) (n + 1) 1000

abbrev at_most : ℤ → ℤ → Bool
at_most a b = not (ltb_ℤ b a)

abbrev between : ℤ → ℤ → ℤ → ℤ
between n lo hi = if ltb_ℤ n lo then lo else if ltb_ℤ hi n then hi else n

abbrev pub thousandths : F64Ops ℤ
thousandths = record {
  zero = pos 0;
  one = pos 1000;
  add = λ a b. a +ℤ b;
  sub = λ a b. a -ℤ b;
  mul = times;
  div = λ a b. scaled a 1000 (pos_part b);
  sqrt = λ a. a;
  lt = λ a b. ltb_ℤ a b;
  le = at_most;
  clamp = between;
  of_i64 = λ n. times n (pos 1000000);
}

abbrev pub coarse : F32Ops ℤ ℤ
coarse = record {
  zero = pos 0;
  one = pos 1000;
  two = pos 2000;
  three = pos 3000;
  sub = λ a b. a -ℤ b;
  mul = times;
  lt = λ a b. ltb_ℤ a b;
  ge = λ a b. at_most b a;
  clamp = between;
  narrow = λ a. a;
  widen = λ a. a;
}
