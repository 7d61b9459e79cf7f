-- ===== src/Gate/Stats/Percentiles.antt =====
-- The snapshot of stats.rs in waddle-core/crates/waddle-gate/src.
use waddle_sdk.Prelude.{
  ℕ, zero, suc, ◌*◌, ◌/◌, ◌%◌, ◌≤◌, ◌<◌, ◌≡◌, refl, Option, none, some, List, [], ◌∷◌, ltb, length,
  subst, sym, ◌∙◌, ap, arith, Bool-cases, inl, inr,
}
use waddle_sdk.Prelude.Int.{ℤ, ◌≤ℤ◌, ltb_ℤ}
use waddle_sdk.Outcome.{Outcome, done}
use waddle_sdk.Types.Time.{MonoNs}
use waddle_sdk.Types.Wrapping.{sub_i64}
use waddle_sdk.Gate.Stats.{
  TickStats, TickSnapshot, slots, new, set, record_tick, insert_sorted, sort, get_elem?, take, last,
  filled, snapshot,
}

-- Every number of the list is between.
abbrev pub Each : (ℤ → Type 0) → List ℤ → Type 0
Each P [] = Unit
Each P (x ∷ xs) = P x × Each P xs

abbrev Sorted : List ℤ → Type 0
Sorted [] = Unit
Sorted (x ∷ xs) = Each (λ y. x ≤ℤ y) xs × Sorted xs

Each-map : (P Q : ℤ → Type 0) (xs : List ℤ) → ((x : ℤ) → P x → Q x) → Each P xs → Each Q xs
Each-map P Q [] f h = tt
Each-map P Q (x ∷ xs) f h = (f x h.0, Each-map P Q xs f h.1)

insert_sorted-Each :
    (P : ℤ → Type 0) (x : ℤ) (xs : List ℤ) → P x → Each P xs → Each P (insert_sorted x xs)
insert_sorted-Each P x [] p h = (p, tt)
insert_sorted-Each P x (y ∷ ys) p h = elim (Bool-cases (ltb_ℤ y x)) [
  | inl e ↦ rw e (h.0, insert_sorted-Each P x ys p h.1)
  | inr e ↦ rw e (p, h)
]

Each-insert_sorted :
    (P : ℤ → Type 0) (x : ℤ) (xs : List ℤ) → Each P (insert_sorted x xs) → P x × Each P xs
Each-insert_sorted P x [] h = h
Each-insert_sorted P x (y ∷ ys) h = elim (Bool-cases (ltb_ℤ y x)) [
  | inl e ↦
      (let below : P y × Each P (insert_sorted x ys) = (rw e at h) in
        let apart = Each-insert_sorted P x ys below.1 in (apart.0, (below.0, apart.1)))
  | inr e ↦ rw e at h
]

insert_sorted-Sorted : (x : ℤ) (xs : List ℤ) → Sorted xs → Sorted (insert_sorted x xs)
insert_sorted-Sorted x [] h = (tt, tt)
insert_sorted-Sorted x (y ∷ ys) h = elim (Bool-cases (ltb_ℤ y x)) [
  | inl e ↦
      rw e (
        insert_sorted-Each (λ z. y ≤ℤ z) x ys (ground (arith, e)) h.0,
        insert_sorted-Sorted x ys h.1,
      )
  | inr e ↦ rw e (
    (ground (arith, e), Each-map (λ z. y ≤ℤ z) (λ z. x ≤ℤ z) ys (λ z q. ground (arith, e, q)) h.0),
    h,
  )
]

sort-Sorted : (xs : List ℤ) → Sorted (sort xs)
sort-Sorted [] = tt
sort-Sorted (x ∷ xs) = insert_sorted-Sorted x (sort xs) (sort-Sorted xs)

length-insert_sorted : (x : ℤ) (xs : List ℤ) → length (insert_sorted x xs) ≡ suc (length xs)
length-insert_sorted x [] = refl
length-insert_sorted x (y ∷ ys) = elim (Bool-cases (ltb_ℤ y x)) [
  | inl e ↦ rw e (omega (arith, length-insert_sorted x ys))
  | inr e ↦ rw e refl
]

length-sort : (xs : List ℤ) → length (sort xs) ≡ length xs
length-sort [] = refl
length-sort (x ∷ xs) = omega (arith, length-insert_sorted x (sort xs), length-sort xs)

length-take : (n : ℕ) (xs : List ℤ) → n ≤ length xs → length (take n xs) ≡ n
length-take zero xs h = refl
length-take (suc n) [] h = ground arith
length-take (suc n) (x ∷ xs) h = ground (arith, length-take n xs)

length-set : (xs : List ℤ) (i : ℕ) (x : ℤ) → length (set xs i x) ≡ length xs
length-set [] i x = refl
length-set (y ∷ ys) zero x = refl
length-set (y ∷ ys) (suc i) x = omega (arith, length-set ys i x)

-- Two positions of a sorted list and its last number.
abbrev Picks : List ℤ → ℕ → ℕ → Type 0
Picks xs i j =
    (a : ℤ) × (b : ℤ) × (m : ℤ) × (get_elem? xs i ≡ some a)
    × (get_elem? xs j ≡ some b)
    × (last xs ≡ some m)
    × (a ≤ℤ b)
    × (b ≤ℤ m)
    × Each (λ x. x ≤ℤ m) xs

value_or : ℤ → Option ℤ → ℤ
value_or default none = default
value_or default (some x) = x

nth : (P : ℤ → Type 0) (xs : List ℤ) (i : ℕ) (a : ℤ) → Each P xs → get_elem? xs i ≡ some a → P a
unfolding value_or
nth P [] i a h e = ground (arith, e)
nth P (x ∷ xs) zero a h e = subst P (ap (value_or x) e) h.0
nth P (x ∷ xs) (suc i) a h e = nth P xs i a h.1 e

picks : (xs : List ℤ) (i j : ℕ) → Sorted xs → i ≤ j → j < length xs → Picks xs i j
picks [] i j s h q = ground arith
picks (x ∷ []) zero zero s h q =
    (x, x, x, refl, refl, refl, omega arith, omega arith, (omega arith, tt))
picks (x ∷ []) i (suc j) s h q = ground arith
picks (x ∷ []) (suc i) zero s h q = ground arith
picks (x ∷ y ∷ ys) zero zero s h q =
    (let (a, b, m, ea, eb, el, ab, bm, all) = picks (y ∷ ys) 0 0 s.1 (omega arith) (omega arith) in
      (
        x,
        x,
        m,
        refl,
        refl,
        el,
        omega arith,
        ground (arith, s.0.0, all.0),
        (ground (arith, s.0.0, all.0), all),
      ))
picks (x ∷ y ∷ ys) zero (suc j) s h q =
    (let (a, b, m, ea, eb, el, ab, bm, all) =
        picks (y ∷ ys) j j s.1 (omega arith) (omega (arith, q)) in
      (
        x,
        b,
        m,
        refl,
        eb,
        el,
        nth (λ z. x ≤ℤ z) (y ∷ ys) j b s.0 eb,
        bm,
        (ground (arith, s.0.0, all.0), all),
      ))
picks (x ∷ y ∷ ys) (suc i) zero s h q = ground arith
picks (x ∷ y ∷ ys) (suc i) (suc j) s h q =
    (let (a, b, m, ea, eb, el, ab, bm, all) =
        picks (y ∷ ys) i j s.1 (omega (arith, h)) (omega (arith, q)) in
      (a, b, m, ea, eb, el, ab, bm, (ground (arith, s.0.0, all.0), all)))

Each-sort : (P : ℤ → Type 0) (xs : List ℤ) → Each P (sort xs) → Each P xs
Each-sort P [] h = tt
Each-sort P (x ∷ xs) h =
    (let parts = Each-insert_sorted P x (sort xs) h in (parts.0, Each-sort P xs parts.1))

-- A snapshot of a window that is not empty.
abbrev pub Reports : TickStats → Outcome TickSnapshot → Type 0
Reports s (done r) =
    (r.samples ≡ filled s)
    × (r.p50_ns ≤ℤ r.p95_ns)
    × (r.p95_ns ≤ℤ r.max_ns)
    × (0 < filled s → Each (λ delta. delta ≤ℤ r.max_ns) (take (filled s) s.deltas))
Reports s _ = ⊥

filled_bound : (s : TickStats) → filled s ≤ 128
filled_bound s = ground arith

half_before : (n : ℕ) → n / 2 ≤ n * 95 / 100
half_before n = omega arith

rank_inside : (n : ℕ) → 0 < n → n * 95 / 100 < n
rank_inside n h = omega arith

snapshot-Reports : (s : TickStats) → length s.deltas ≡ 128 → Reports s (snapshot s)
unfolding snapshot
snapshot-Reports s h = elim (Bool-cases (ltb 0 (filled s))) [
  | inl e ↦
      (let h_len =
          length-sort (take (filled s) s.deltas)
          ∙ length-take (filled s) s.deltas (omega (arith, filled_bound s, h)) in
        let (a, b, m, ea, eb, el, ab, bm, all) =
          picks (sort (take (filled s) s.deltas)) (filled s / 2) (filled s * 95 / 100)
            (sort-Sorted (take (filled s) s.deltas)) (half_before (filled s))
            (subst (λ n. filled s * 95 / 100 < n) (sym h_len)
              (rank_inside (filled s) (ground (arith, e)))) in
        rw (e, ea, eb, el)
          (refl, ab, bm, λ _. Each-sort (λ delta. delta ≤ℤ m) (take (filled s) s.deltas) all))
  | inr e ↦ rw e (ground (arith, e), omega arith, omega arith, λ p. ground (arith, e, p))
]

unfoldable pub record_all : TickStats → List MonoNs → TickStats
unfolding record_tick
record_all s [] = s
record_all s (now ∷ ticks) = record_all (record_tick s now) ticks

record_tick-length :
    (s : TickStats) (now : MonoNs) → length (record_tick s now).deltas ≡ length s.deltas
unfolding record_tick
record_tick-length s now =
    ground (arith, length-set s.deltas (s.count % slots) (sub_i64 now s.last_tick_ns))

record_all-length :
    (s : TickStats) (ticks : List MonoNs) → length (record_all s ticks).deltas ≡ length s.deltas
unfolding record_all
record_all-length s [] = refl
record_all-length s (now ∷ ticks) =
    record_all-length (record_tick s now) ticks ∙ record_tick-length s now

-- After any ticks of a gate, a snapshot of their statistics returns, over a window of at most 128
-- deltas: the median is at most the 95th percentile, which is at most the maximum, and no delta of
-- the window exceeds the maximum.
pub snapshot-record_all :
    (ticks : List MonoNs)
    → (filled (record_all new ticks) ≤ 128)
      × Reports (record_all new ticks) (snapshot (record_all new ticks))
unfolding new
snapshot-record_all ticks = (
  filled_bound (record_all new ticks),
  snapshot-Reports (record_all new ticks) (record_all-length new ticks),
)
