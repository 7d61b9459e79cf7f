-- ===== src/Gate/DualWrite/Reference.antt =====
-- The detector of dualwrite.rs in waddle-core/crates/waddle-gate/src against a description by the
-- history of its samples, the newest first.
use waddle_sdk.Prelude.{
  ℕ, ◌+◌, ◌%◌, ◌^◌, ◌≡◌, refl, Bool, true, false, ◌||◌, not, Option, none, some, List, [], ◌∷◌,
  if◌then◌else◌, Bool-cases, ◌⊎◌, inl, inr, is_some, subst, sym, ◌∙◌,
}
use waddle_sdk.Prelude.Int.{ℤ, pos, ltb_ℤ, max_ℤ}
use waddle_sdk.Prelude.Float.{F64Ops}
use waddle_sdk.Types.Time.{MonoNs}
use waddle_sdk.Types.Wrapping.{sub_i64}
use waddle_sdk.Gate.DualWrite.{
  DualWriteVerdict, DivergenceDetector, Sample, get_or, incomparable, new, l2, feed, reset,
}

module _ {F : Type 0} (f64 : F64Ops F) (threshold : F) (window_ns : ℤ) where
  -- The samples that diverge without a break up to the newest one; a sample with nothing to compare
  -- neither joins nor ends them.
  unfoldable pub run : List (Sample F) → List (Sample F)
  run [] = []
  run (s ∷ history) =
      let rest = run history in
      if incomparable s then rest else if f64.le (l2 f64 s) threshold then [] else s ∷ rest

  unfoldable pub started_at : List (Sample F) → Option MonoNs
  started_at [] = none
  started_at (s ∷ samples) = some (get_or (started_at samples) s.at)

  unfoldable pub total : List (Sample F) → F
  total [] = f64.zero
  total (s ∷ samples) = f64.add (total samples) (l2 f64 s)

  unfoldable pub count : List (Sample F) → ℕ
  count [] = 0
  count (s ∷ samples) = (count samples + 1) % 2 ^ 32

  -- The verdict on a run that ends at the instant `at`.
  abbrev judged : MonoNs → List (Sample F) → Option (DualWriteVerdict F)
  judged at samples =
      let spent = sub_i64 at (get_or (started_at samples) at) in
      if not (ltb_ℤ spent (max_ℤ window_ns (pos 1)))
      then some (record {
        divergence_metric = f64.div (total samples) (f64.of_i64 (pos (count samples)));
        window_ns = spent;
      })
      else none

  -- The newest sample diverges, and its run has lasted for the window.
  unfoldable pub due : List (Sample F) → Option (DualWriteVerdict F)
  unfolding run started_at total count
  due [] = none
  due (s ∷ history) =
      if incomparable s || f64.le (l2 f64 s) threshold
      then none
      else judged s.at (run (s ∷ history))

  unfoldable pub ever_due : List (Sample F) → Bool
  unfolding due
  ever_due [] = false
  ever_due (s ∷ history) = let before = ever_due history in before || is_some (due (s ∷ history))

  -- A detector that was fed a history.
  unfoldable pub after : DivergenceDetector F → List (Sample F) → DivergenceDetector F
  unfolding feed
  after d [] = d
  after d (s ∷ history) = (feed f64 (after d history) s).0

  abbrev described : List (Sample F) → DivergenceDetector F
  described history = record {
    threshold = threshold;
    window_ns = max_ℤ window_ns (pos 1);
    run_start = started_at (run history);
    run_sum = total (run history);
    run_samples = count (run history);
    fired = false;
  }

  abbrev Follows : List (Sample F) → DivergenceDetector F → Type 0
  Follows history d =
      ((ever_due history ≡ true) × (d.fired ≡ true))
      ⊎ ((ever_due history ≡ false) × (d ≡ described history))

  -- One more sample, on a detector that follows the history.
  abbrev Answers : Sample F → List (Sample F) → DivergenceDetector F → Type 0
  Answers s history d =
      Follows (s ∷ history) (feed f64 d s).0
      × ((feed f64 d s).1 ≡ (if ever_due history then none else due (s ∷ history)))

  unfired :
      (s : Sample F) (history : List (Sample F))
      → ever_due history ≡ false
      → Answers s history (described history)
  unfolding feed run ever_due due started_at total count
  unfired s history e = elim (Bool-cases (incomparable s)) [
    | inl i ↦ rw (e, i) (inr (refl, refl), refl)
    | inr i ↦ elim (Bool-cases (f64.le (l2 f64 s) threshold)) [
      | inl q ↦ rw (e, i, q) (inr (refl, refl), refl)
      | inr q ↦
          elim (Bool-cases (
            ltb_ℤ (sub_i64 s.at (get_or (started_at (run history)) s.at))
              (max_ℤ window_ns (pos 1)))) [
                | inl t ↦ rw (e, i, q, t) (inr (refl, refl), refl)
                | inr t ↦ rw (e, i, q, t) (inl (refl, refl), refl)
              ]
    ]
  ]

  frozen : (s : Sample F) (d : DivergenceDetector F) → d.fired ≡ true → feed f64 d s ≡ (d, none)
  unfolding feed
  frozen s d h = simp h

  answers :
      (s : Sample F) (history : List (Sample F)) (d : DivergenceDetector F)
      → Follows history d
      → Answers s history d
  unfolding feed ever_due
  answers s history d (inl (e, fired)) = rw (e, frozen s d fired) (inl (refl, fired), refl)
  answers s history d (inr (e, same)) = subst (Answers s history) (sym same) (unfired s history e)

  after-Follows :
      (history : List (Sample F)) → Follows history (after (new f64 threshold window_ns) history)
  unfolding new after run ever_due started_at total count
  after-Follows [] = inr (refl, refl)
  after-Follows (s ∷ history) =
      (answers s history (after (new f64 threshold window_ns) history) (after-Follows history)).0

  reset-feed : (d : DivergenceDetector F) (s : Sample F) → reset f64 (feed f64 d s).0 ≡ reset f64 d
  unfolding reset feed
  reset-feed d s = elim (Bool-cases (d.fired || incomparable s)) [
    | inl e ↦ rw e refl
    | inr e ↦ elim (Bool-cases (f64.le (l2 f64 s) d.threshold)) [
      | inl q ↦ rw (e, q) refl
      | inr q ↦ elim (Bool-cases (ltb_ℤ (sub_i64 s.at (get_or d.run_start s.at)) d.window_ns)) [
        | inl t ↦ rw (e, q, t) refl
        | inr t ↦ rw (e, q, t) refl
      ]
    ]
  ]

  reset-after :
      (history : List (Sample F))
      → reset f64 (after (new f64 threshold window_ns) history) ≡ new f64 threshold window_ns
  unfolding reset new after
  reset-after [] = refl
  reset-after (s ∷ history) =
      reset-feed (after (new f64 threshold window_ns) history) s ∙ reset-after history

  -- Since the last reset, whatever came before it, a detector that is fed any history of samples and
  -- then one more reports exactly what the history calls for: nothing if some sample of the history
  -- called for a verdict already, and otherwise the verdict that the newest sample calls for, if any:
  -- it diverges, and the unbroken run of diverging samples that ends in it has lasted for the window.
  -- The verdict has that run's mean divergence and length.
  pub feed-due :
      (s : Sample F) (history earlier : List (Sample F))
      → (feed f64 (after (reset f64 (after (new f64 threshold window_ns) earlier)) history) s).1
        ≡ (if ever_due history then none else due (s ∷ history))
  feed-due s history earlier =
      rw (reset-after earlier)
        (answers s history (after (new f64 threshold window_ns) history) (after-Follows history)).1
