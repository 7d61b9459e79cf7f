-- ===== src/ControlPlane/Buffer/Replay.antt =====
-- What a partition leaves in the buffer of waddle-core/crates/waddle-controlplane/src/buffer.rs.
use waddle_sdk.Prelude.{
  ℕ, ◌+◌, ◌-◌, ◌%◌, ◌^◌, ◌≤◌, ◌≡◌, refl, sym, ap, ◌∙◌, List, [], ◌∷◌, ◌++◌, append_nil, append_one,
  length, length-append, arith, leb, if◌then◌else◌, Bool,
}
use waddle_sdk.Prelude.Recent.{
  recent, recent_nil, is_full-recent, push_bounded-recent, length-recent,
}
use waddle_sdk.ControlPlane.Buffer.{OfflineBuffer, new, push, drain, len}

abbrev pub at_least_one : ℕ → ℕ
at_least_one n = (new {A = ℕ} n).capacity

abbrev counts : Bool → ℕ → ℕ
counts full dropped = if full then (dropped + 1) % 2 ^ 64 else dropped

positive : (capacity : ℕ) → 1 ≤ at_least_one capacity
unfolding new
positive capacity = ground arith

module _ {A : Type 0} where
  unfoldable pub push_all : OfflineBuffer A → List A → OfflineBuffer A
  unfolding push
  push_all b [] = b
  push_all b (x ∷ xs) = push_all (push b x).0 xs

  -- The buffer that has seen `xs` since it was empty.
  abbrev pub holding : ℕ → List A → OfflineBuffer A
  holding capacity xs = record {
    items = recent capacity xs;
    capacity = capacity;
    dropped = (length xs - capacity) % 2 ^ 64;
  }

  dropped_next :
      (capacity : ℕ) (x : A) (xs : List A)
      → counts (leb capacity (length xs)) ((length xs - capacity) % 2 ^ 64)
        ≡ (length (xs ++ x ∷ []) - capacity) % 2 ^ 64
  dropped_next capacity x xs = ground (arith, length-append xs (x ∷ []))

  same_parts :
      (xs ys : List A) (m capacity n : ℕ)
      → xs ≡ ys
      → m ≡ n
      → ◌≡◌ {A = OfflineBuffer A}
          (record { items = xs; capacity = capacity; dropped = m })
          (record { items = ys; capacity = capacity; dropped = n })
  same_parts xs ys m capacity n p q =
      ap (λ zs. record { items = zs; capacity = capacity; dropped = m }) p
      ∙ ap (λ k. record { items = ys; capacity = capacity; dropped = k }) q

  push-holding :
      (capacity : ℕ) (x : A) (xs : List A)
      → 1 ≤ capacity
      → (push (holding capacity xs) x).0 ≡ holding capacity (xs ++ x ∷ [])
  unfolding push
  push-holding capacity x xs h = same_parts _ _ _ capacity _ (push_bounded-recent capacity x xs h) (
      ap (λ full. counts full ((length xs - capacity) % 2 ^ 64)) (is_full-recent capacity xs)
      ∙ dropped_next capacity x xs)

  pushed :
      (capacity : ℕ) (seen xs : List A)
      → 1 ≤ capacity
      → push_all (holding capacity seen) xs ≡ holding capacity (seen ++ xs)
  unfolding push_all
  pushed capacity seen [] h = ap (holding capacity) (sym (append_nil seen))
  pushed capacity seen (x ∷ xs) h =
      ap (λ b. push_all b xs) (push-holding capacity x seen h)
      ∙ pushed capacity (seen ++ x ∷ []) xs h
      ∙ ap (holding capacity) (append_one seen x xs)

  new-holding : (capacity : ℕ) → new {A = A} capacity ≡ holding (at_least_one capacity) []
  unfolding new
  new-holding capacity =
      same_parts [] (recent (at_least_one capacity) []) 0 (at_least_one capacity) _
        (sym (recent_nil (at_least_one capacity))) (omega arith)

  all_pushed :
      (capacity : ℕ) (xs : List A) → push_all (new capacity) xs ≡ holding (at_least_one capacity) xs
  all_pushed capacity xs =
      ap (λ b. push_all b xs) (new-holding capacity)
      ∙ pushed (at_least_one capacity) [] xs (positive capacity)

  -- After any pushes the buffer holds the last `capacity` items (one, for a capacity of zero) in the
  -- order of their arrival, the drain returns exactly these and empties it, and the drop count is the
  -- number of the others as a `u64`, which the drain leaves alone.
  pub drain-push_all :
      (capacity : ℕ) (xs : List A)
      → (drain (push_all (new capacity) xs) ≡ (
        recent (at_least_one capacity) xs,
        record {
          items = [];
          capacity = at_least_one capacity;
          dropped = (length xs - at_least_one capacity) % 2 ^ 64;
        },
      ))
        × (len (push_all (new capacity) xs) ≤ at_least_one capacity)
  unfolding drain len
  drain-push_all capacity xs =
      rw (all_pushed capacity xs) (refl, length-recent (at_least_one capacity) xs)
