-- ===== src/Prelude/Recent.antt =====
-- A queue that drops its oldest element when it is full: what it holds is the end of what was pushed.
use Prim.Native.Nat.{ℕ, zero, suc, ◌-◌, ◌≤◌}
use mathlib.Core.Path.{◌≡◌, refl, sym, ap, ◌∙◌}
use mathlib.Core.Logic.{inl, inr}
use mathlib.Core.Bool.{Bool, true, false, ◌&&◌}
use mathlib.Core.List.{List, [], ◌∷◌, ◌++◌}
use native.Mathlib.Omega.{arith}
use waddle_sdk.Prelude.Tests.{leb, if◌then◌else◌, Bool-cases}
use waddle_sdk.Prelude.Lists.{length, length-append}

module _ {A : Type 0} where
  abbrev pub drop : ℕ → List A → List A
  drop zero xs = xs
  drop (suc n) [] = []
  drop (suc n) (_ ∷ xs) = drop n xs

  -- `len() == capacity`.
  abbrev pub is_full : ℕ → List A → Bool
  is_full capacity xs = leb (length xs) capacity && leb capacity (length xs)

  -- `pop_front` on a full queue, then `push_back`.
  abbrev pub push_bounded : ℕ → A → List A → List A
  push_bounded capacity x xs = (if is_full capacity xs then drop 1 xs else xs) ++ x ∷ []

  -- The last `capacity` elements.
  abbrev pub recent : ℕ → List A → List A
  recent capacity xs = drop (length xs - capacity) xs

  length-drop : (n : ℕ) (xs : List A) → length (drop n xs) ≡ length xs - n
  length-drop zero xs = omega arith
  length-drop (suc n) [] = omega arith
  length-drop (suc n) (x ∷ xs) = omega (arith, length-drop n xs)

  pub length-recent : (capacity : ℕ) (xs : List A) → length (recent capacity xs) ≤ capacity
  length-recent capacity xs = omega (arith, length-drop (length xs - capacity) xs)

  drop-drop : (n : ℕ) (xs : List A) → drop 1 (drop n xs) ≡ drop (suc n) xs
  drop-drop zero xs = refl
  drop-drop (suc n) [] = refl
  drop-drop (suc n) (x ∷ xs) = drop-drop n xs

  drop_nil : (n : ℕ) → ◌≡◌ {A = List A} (drop n []) []
  drop_nil zero = refl
  drop_nil (suc n) = refl

  pub recent_nil : (capacity : ℕ) → ◌≡◌ {A = List A} (recent capacity []) []
  recent_nil capacity = drop_nil (0 - capacity)

  drop-append : (n : ℕ) (xs ys : List A) → n ≤ length xs → drop n (xs ++ ys) ≡ drop n xs ++ ys
  drop-append zero xs ys h = refl
  drop-append (suc n) [] ys h = ground (arith, h)
  drop-append (suc n) (x ∷ xs) ys h = drop-append n xs ys (omega (arith, h))

  pub is_full-recent :
      (capacity : ℕ) (xs : List A)
      → is_full capacity (recent capacity xs) ≡ leb capacity (length xs)
  is_full-recent capacity xs = ground (arith, length-drop (length xs - capacity) xs)

  full_recent :
      (capacity : ℕ) (xs : List A)
      → capacity ≤ length xs
      → is_full capacity (recent capacity xs) ≡ true
  full_recent capacity xs h = ground (arith, h, length-drop (length xs - capacity) xs)

  drop_at : (xs : List A) (m n : ℕ) → m ≡ n → drop m xs ≡ drop n xs
  drop_at xs m n e = ap (λ k. drop k xs) e

  pushed_full :
      (capacity : ℕ) (x : A) (xs : List A)
      → capacity ≤ length xs
      → 1 ≤ capacity
      → push_bounded capacity x (recent capacity xs) ≡ recent capacity (xs ++ x ∷ [])
  pushed_full capacity x xs h c = rw (full_recent capacity xs h) (
      ap (λ ys. ys ++ x ∷ []) (drop-drop (length xs - capacity) xs)
      ∙ sym (drop-append (suc (length xs - capacity)) xs (x ∷ []) (omega (arith, h, c)))
      ∙ drop_at (xs ++ x ∷ []) (suc (length xs - capacity)) (length (xs ++ x ∷ []) - capacity)
          (omega (arith, h, length-append xs (x ∷ []))))

  recent_whole : (capacity : ℕ) (xs : List A) → length xs ≤ capacity → recent capacity xs ≡ xs
  recent_whole capacity xs h = drop_at xs (length xs - capacity) 0 (omega (arith, h))

  pushed_room :
      (capacity : ℕ) (x : A) (xs : List A)
      → suc (length xs) ≤ capacity
      → push_bounded capacity x (recent capacity xs) ≡ recent capacity (xs ++ x ∷ [])
  pushed_room capacity x xs h =
      rw
        (
          recent_whole capacity xs (omega (arith, h)),
          recent_whole capacity (xs ++ x ∷ []) (omega (arith, h, length-append xs (x ∷ []))),
        )
        (has_room xs (ground (arith, h)))
    where
      has_room :
          (ys : List A) → is_full capacity ys ≡ false → push_bounded capacity x ys ≡ ys ++ x ∷ []
      has_room ys e = rw e refl

  pub push_bounded-recent :
      (capacity : ℕ) (x : A) (xs : List A)
      → 1 ≤ capacity
      → push_bounded capacity x (recent capacity xs) ≡ recent capacity (xs ++ x ∷ [])
  push_bounded-recent capacity x xs h = elim (Bool-cases (leb capacity (length xs))) [
    | inl e ↦ pushed_full capacity x xs (ground (arith, e)) h
    | inr e ↦ pushed_room capacity x xs (ground (arith, e))
  ]
