-- ===== src/Runtime/Timers/Due.antt =====
-- Which timers of reducer.rs fire, in which order, and that none fires twice.
use waddle_sdk.Prelude.{
  ◌≡◌, refl, sym, Bool, true, false, not, [], ◌∷◌, inl, inr, ◌↔◌, Occurs, Bool-cases, arith,
}
use waddle_sdk.Prelude.Int.{◌≤ℤ◌, ltb_ℤ}
use waddle_sdk.Types.Time.{MonoNs}
use waddle_sdk.Session.Effect.{TimerId}
use waddle_sdk.Runtime.Timers.Table.{
  AtMostOnce, InOrder, retain-AtMostOnce, sort-AtMostOnce, sort-InOrder,
}
use waddle_sdk.Runtime.Timers.{
  Armed, retain, insert_by_deadline, sort_by_deadline, is_later, due, pending,
}

insert-Occurs :
    (x t : TimerId × MonoNs) (ts : Armed) → Occurs x (insert_by_deadline t ts) ↔ Occurs x (t ∷ ts)
unfolding insert_by_deadline
insert-Occurs x t [] = (λ h. h, λ h. h)
insert-Occurs x t (u ∷ us) = elim (Bool-cases (ltb_ℤ u.1 t.1)) [
  | inl y ↦ rw y (
    λ h. elim h [
      | inl e ↦ inr (inl e)
      | inr k ↦ elim ((insert-Occurs x t us).0 k) [ inl e ↦ inl e | inr l ↦ inr (inr l) ]
    ],
    λ h. elim h [
      | inl e ↦ inr ((insert-Occurs x t us).1 (inl e))
      | inr k ↦ elim k [ inl e ↦ inl e | inr l ↦ inr ((insert-Occurs x t us).1 (inr l)) ]
    ],
  )
  | inr n ↦ rw n (λ h. h, λ h. h)
]

sort-Occurs : (x : TimerId × MonoNs) (ts : Armed) → Occurs x (sort_by_deadline ts) ↔ Occurs x ts
unfolding sort_by_deadline
sort-Occurs x [] = (λ h. h, λ h. h)
sort-Occurs x (t ∷ ts) =
    let step = insert-Occurs x t (sort_by_deadline ts) in
    (
      λ h. elim (step.0 h) [ inl e ↦ inl e | inr k ↦ inr ((sort-Occurs x ts).0 k) ],
      λ h. step.1 (elim h [ inl e ↦ inl e | inr k ↦ inr ((sort-Occurs x ts).1 k) ]),
    )

clash : (b : Bool) → b ≡ false → b ≡ true → ⊥
clash b n y = cc

retain-Occurs :
    (keep : TimerId × MonoNs → Bool) (x : TimerId × MonoNs) (ts : Armed)
    → Occurs x (retain keep ts) ↔ (Occurs x ts × (keep x ≡ true))
unfolding retain
retain-Occurs keep x [] = (λ h. absurd h, λ h. h.0)
retain-Occurs keep x (t ∷ ts) =
    let before = retain-Occurs keep x ts in
    elim (Bool-cases (keep t)) [
      | inl y ↦ rw y (
        λ h. elim h [
          | inl e ↦ (inl e, rw (sym e) y)
          | inr k ↦ (inr (before.0 k).0, (before.0 k).1)
        ],
        λ h. elim h.0 [ inl e ↦ inl e | inr k ↦ inr (before.1 (k, h.1)) ],
      )
      | inr n ↦ rw n (
        λ h. (inr (before.0 h).0, (before.0 h).1),
        λ h. elim h.0 [ inl e ↦ absurd (clash (keep t) n (rw e h.1)) | inr k ↦ before.1 (k, h.1) ],
      )
    ]

not_later : (now : MonoNs) (t : TimerId × MonoNs) → (not (is_later now t) ≡ true) ↔ (t.1 ≤ℤ now)
not_later now t = elim (Bool-cases (is_later now t)) [
  | inl y ↦ rw y (λ h. cc, λ h. ground (arith, h, y))
  | inr n ↦ rw n (λ h. ground (arith, n), λ h. refl)
]

-- What becomes of an armed timer in a round of the loop at `now`.
abbrev pub Fires : MonoNs → Armed → TimerId × MonoNs → Type 0
Fires now armed t =
    (Occurs t (due now armed) ↔ (Occurs t armed × (t.1 ≤ℤ now)))
    × (Occurs t (pending now armed) ↔ (Occurs t armed × (ltb_ℤ now t.1 ≡ true)))

fires : (now : MonoNs) (armed : Armed) (t : TimerId × MonoNs) → Fires now armed t
unfolding due pending
fires now armed t =
    let early = retain (λ u. not (is_later now u)) armed in
    let sorted = sort-Occurs t early in
    let kept = retain-Occurs (λ u. not (is_later now u)) t armed in
    let timely = not_later now t in
    (
      (
        λ h. ((kept.0 (sorted.0 h)).0, timely.0 (kept.0 (sorted.0 h)).1),
        λ h. sorted.1 (kept.1 (h.0, timely.1 h.1)),
      ),
      retain-Occurs (is_later now) t armed,
    )

-- Where every id is armed at most once: a round fires exactly the armed timers whose deadline is not
-- after its instant, each once and in the order of their deadlines, and keeps exactly the others
-- armed, each id at most once.
pub due-Fires :
    (now : MonoNs) (armed : Armed)
    → AtMostOnce armed
    → ((t : TimerId × MonoNs) → Fires now armed t)
      × AtMostOnce (due now armed)
      × InOrder (due now armed)
      × AtMostOnce (pending now armed)
unfolding due pending
due-Fires now armed once =
    let early = retain (λ t. not (is_later now t)) armed in
    (
      fires now armed,
      sort-AtMostOnce early (retain-AtMostOnce (λ t. not (is_later now t)) armed once),
      sort-InOrder early,
      retain-AtMostOnce (is_later now) armed once,
    )
