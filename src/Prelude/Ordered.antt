-- ===== src/Prelude/Ordered.antt =====
-- `BTreeMap<u64, _>`: an association list in ascending order of its keys.
use Prim.Native.Nat.{ℕ, suc, ◌≤◌}
use mathlib.Core.Path.{◌≡◌}
use mathlib.Core.Bool.{true, ◌&&◌}
use mathlib.Core.Option.{Option, none, some}
use mathlib.Core.List.{List, [], ◌∷◌}
use native.Mathlib.Omega.{arith}
use waddle_sdk.Prelude.Tests.{ltb, leb, if◌then◌else◌, of_branches}

pub leb_refl : (k : ℕ) → leb k k ≡ true
leb_refl k = ground arith

module _ {A : Type 0} where
  unfoldable pub insert : ℕ → A → List (ℕ × A) → List (ℕ × A)
  insert k v [] = (k, v) ∷ []
  insert k v ((j, w) ∷ m) =
      let rest = insert k v m in
      if ltb k j then (k, v) ∷ (j, w) ∷ m else if ltb j k then (j, w) ∷ rest else (k, v) ∷ m

  unfoldable pub remove : ℕ → List (ℕ × A) → Option A × List (ℕ × A)
  remove k [] = (none, [])
  remove k ((j, w) ∷ m) =
      let rest = remove k m in if leb j k && leb k j then (some w, m) else (rest.0, (j, w) ∷ rest.1)

  -- Ascending, with every key at least `lo`.
  abbrev pub AscendingFrom : ℕ → List (ℕ × A) → Type 0
  AscendingFrom lo [] = Unit
  AscendingFrom lo ((k, v) ∷ m) = (lo ≤ k) × AscendingFrom (suc k) m

  pub insert-AscendingFrom :
      (lo k : ℕ) (v : A) (m : List (ℕ × A))
      → lo ≤ k
      → AscendingFrom lo m
      → AscendingFrom lo (insert k v m)
  unfolding insert
  insert-AscendingFrom lo k v [] h a = (h, tt)
  insert-AscendingFrom lo k v ((j, w) ∷ m) h a = ground (arith, insert-AscendingFrom (suc j) k v m)

  -- Every value of the map satisfies `P`.
  abbrev pub EveryValue : (A → Type 0) → List (ℕ × A) → Type 0
  EveryValue P [] = Unit
  EveryValue P ((k, v) ∷ m) = P v × EveryValue P m

  pub insert-EveryValue :
      (P : A → Type 0) (k : ℕ) (v : A) (m : List (ℕ × A))
      → P v
      → EveryValue P m
      → EveryValue P (insert k v m)
  unfolding insert
  insert-EveryValue P k v [] h a = (h, tt)
  insert-EveryValue P k v ((j, w) ∷ m) h a =
      of_branches (EveryValue P) (ltb k j) _ _ (λ _. (h, a))
        λ _.
          of_branches (EveryValue P) (ltb j k) _ _ (λ _. (a.0, insert-EveryValue P k v m h a.1))
            λ _. (h, a.1)
