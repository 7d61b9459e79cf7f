-- ===== src/Outcome.antt =====
-- What a handler of the session machine does: it returns, it returns `Err(Rejected)`, or it panics
-- at an `expect`.
use waddle_sdk.Prelude.{Option, none, some, String}

pub data Outcome {ℓ} (A : Type ℓ) : Type ℓ where
  done : A → Outcome A
  rejected : String → Outcome A
  panicked : String → Outcome A

infixl 5 ◌>>=◌
abbrev pub ◌>>=◌ {ℓ κ} : {A : Type ℓ} {B : Type κ} → Outcome A → (A → Outcome B) → Outcome B
done a >>= f = f a
rejected r >>= f = rejected r
panicked m >>= f = panicked m

-- Rust's `Option::expect`.
abbrev pub expect {ℓ} : {A : Type ℓ} → Option A → String → Outcome A
expect none message = panicked message
expect (some a) message = done a

-- A run that returns meets `P`, and no run panics. A rejection leaves the state as it was.
abbrev pub Ensures : {A : Type 0} → (A → Type 0) → Outcome A → Type 0
Ensures P (done a) = P a
Ensures P (rejected r) = Unit
Ensures P (panicked m) = ⊥
