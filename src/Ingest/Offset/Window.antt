-- ===== src/Ingest/Offset/Window.antt =====
-- What the estimator of waddle-core/crates/waddle-ingest/src/offset.rs knows after a history of
-- observations.
use waddle_sdk.Prelude.{
  ℕ, ◌≤◌, ◌≡◌, refl, sym, subst, ap, ◌∙◌, inl, inr, Option, none, some, List, [], ◌∷◌, ◌++◌, Occurs,
  append_nil, append_one, of_branches, arith, if◌then◌else◌,
}
use waddle_sdk.Prelude.Int.{ℤ, ◌≤ℤ◌, ◌+ℤ◌, ◌-ℤ◌, ltb_ℤ, +ℤ_parts, -ℤ_parts}
use waddle_sdk.Prelude.Recent.{recent, push_bounded-recent, recent_nil}
use waddle_sdk.Types.Time.{MonoNs, i64_min, i64_max}
use waddle_sdk.Types.Wrapping.{sub_i64, add_i64_exact, sub_i64_exact}
use waddle_sdk.Ingest.Offset.{SourceOffsetEstimator, new, observe, least, offset_ns, shift, map_ts}

-- An observation: the source's timestamp and the host's.
abbrev pub Observation : Type 0
Observation = ℤ × MonoNs

abbrev pub delta : Observation → ℤ
delta (source_ts_ns, host_recv) = sub_i64 host_recv source_ts_ns

-- The newest observation last.
abbrev pub deltas : List Observation → List ℤ
deltas [] = []
deltas (o ∷ os) = delta o ∷ deltas os

unfoldable pub observe_all : SourceOffsetEstimator → List Observation → SourceOffsetEstimator
unfolding observe
observe_all e [] = e
observe_all e ((source_ts_ns, host_recv) ∷ os) = observe_all (observe e source_ts_ns host_recv) os

-- `m` is the least number of the list.
abbrev pub AllAbove : ℤ → List ℤ → Type 0
AllAbove m [] = Unit
AllAbove m (x ∷ xs) = (m ≤ℤ x) × AllAbove m xs

abbrev pub IsLeast : List ℤ → Option ℤ → Type 0
IsLeast xs none = xs ≡ []
IsLeast xs (some m) = Occurs m xs × AllAbove m xs

AllAbove-weaken : (m n : ℤ) (xs : List ℤ) → m ≤ℤ n → AllAbove n xs → AllAbove m xs
AllAbove-weaken m n [] h a = tt
AllAbove-weaken m n (x ∷ xs) h a = (ground (arith, h, a.0), AllAbove-weaken m n xs h a.1)

IsLeast-cons :
    (x m : ℤ) (xs : List ℤ)
    → IsLeast xs (some m)
    → IsLeast (x ∷ xs) (some (if ltb_ℤ m x then m else x))
IsLeast-cons x m xs h =
    of_branches (λ n. IsLeast (x ∷ xs) (some n)) (ltb_ℤ m x) m x
      (λ e. (inr h.0, (ground (arith, e), h.1)))
      λ e. (inl refl, (ground arith, AllAbove-weaken x m xs (ground (arith, e)) h.1))

least-IsLeast : (xs : List ℤ) → IsLeast xs (least xs)
least-IsLeast [] = refl
least-IsLeast (x ∷ xs) = go (least xs) (least-IsLeast xs)
  where
    go :
        (o : Option ℤ)
        → IsLeast xs o
        → IsLeast (x ∷ xs) (elim o [ none ↦ some x | some m ↦ some (if ltb_ℤ m x then m else x) ])
    go none h = rw h (inl refl, (ground arith, tt))
    go (some m) h = IsLeast-cons x m xs h

observed :
    (capacity : ℕ) (seen : List ℤ) (os : List Observation)
    → 1 ≤ capacity
    → (observe_all (record { window = capacity; deltas = recent capacity seen }) os).deltas
      ≡ recent capacity (seen ++ deltas os)
unfolding observe_all observe
observed capacity seen [] h = ap (recent capacity) (sym (append_nil seen))
observed capacity seen ((ts, at) ∷ os) h =
    ap (λ xs. (observe_all (record { window = capacity; deltas = xs }) os).deltas)
      (push_bounded-recent capacity (sub_i64 at ts) seen h)
    ∙ observed capacity (seen ++ sub_i64 at ts ∷ []) os h
    ∙ ap (recent capacity) (append_one seen (sub_i64 at ts) (deltas os))

-- The window of an estimator for `n` observations.
abbrev pub at_least_one : ℕ → ℕ
at_least_one n = (new n).window

kept :
    (window : ℕ) (os : List Observation)
    → (observe_all (new window) os).deltas ≡ recent (at_least_one window) (deltas os)
unfolding new
kept window os =
    ap (λ xs. (observe_all (record { window = at_least_one window; deltas = xs }) os).deltas)
      (sym (recent_nil (at_least_one window)))
    ∙ observed (at_least_one window) [] os (ground arith)

-- The offset is the least delta among the last `window` observations (one, for a window of zero) and
-- is absent exactly while nothing was observed: an older observation never counts.
pub offset_ns-IsLeast :
    (window : ℕ) (os : List Observation)
    → IsLeast (recent (at_least_one window) (deltas os)) (offset_ns (observe_all (new window) os))
unfolding new offset_ns
offset_ns-IsLeast window os =
    subst (λ xs. IsLeast xs (least (observe_all (new window) os).deltas)) (kept window os)
      (least-IsLeast (observe_all (new window) os).deltas)

last_above : (m x : ℤ) (xs : List ℤ) → AllAbove m (xs ++ x ∷ []) → m ≤ℤ x
last_above m x [] h = h.0
last_above m x (y ∷ ys) h = last_above m x ys h.1

-- A sample never lands after its own arrival: the instant that the estimator gives it, just after it
-- observed it, is at most the arrival's, provided that no difference or sum leaves the `i64` range.
pub map_ts-observe :
    (e : SourceOffsetEstimator) (source_ts_ns offset : ℤ) (host_recv : MonoNs)
    → offset_ns (observe e source_ts_ns host_recv) ≡ some offset
    → i64_min ≤ℤ host_recv -ℤ source_ts_ns
    → host_recv -ℤ source_ts_ns ≤ℤ i64_max
    → i64_min ≤ℤ source_ts_ns +ℤ offset
    → host_recv ≤ℤ i64_max
    → (at : MonoNs) × (map_ts (observe e source_ts_ns host_recv) source_ts_ns ≡ some at)
      × (at ≤ℤ host_recv)
unfolding observe offset_ns map_ts
map_ts-observe e ts o now h lo hi low top =
    (let before : o ≤ℤ now -ℤ ts =
        subst (λ d. o ≤ℤ d) (sub_i64_exact now ts lo hi)
          (last_above o (sub_i64 now ts) _
            (subst (IsLeast _) h (least-IsLeast (observe e ts now).deltas)).1) in
      let inside : ts +ℤ o ≤ℤ now = omega (arith, before, +ℤ_parts ts o, -ℤ_parts now ts) in
      (
        ts +ℤ o,
        ap (shift ts) h ∙ ap some (add_i64_exact ts o low (omega (arith, inside, top))),
        inside,
      ))
