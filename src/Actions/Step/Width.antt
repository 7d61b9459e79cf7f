-- ===== src/Actions/Step/Width.antt =====
-- The shape of the steps that waddle-core/crates/waddle-types/src/action.rs lets through.
use waddle_sdk.Prelude.{
  ℕ, ◌≡◌, refl, ap, Bool, true, false, ◌&&◌, not, ◌⊎◌, inl, inr, Option, none, some, List, [],
  String, length, is_some, arith, subst, Bool-cases,
}
use waddle_sdk.Prelude.Int.{ℤ}
use waddle_sdk.Actions.Errors.{TypesError, Result, ok, err, ◌>>=◌, ok_or}
use waddle_sdk.Actions.Space.{ActionSpace, dims}
use waddle_sdk.Actions.Message.{Action}
use waddle_sdk.Actions.Step.{
  Step, PartPolicy, VelocityFeedforwardPolicy, addressed_part, scoped, is_noop, is_composite,
  has_width, supports_velocity_feedforward, all_finite, checked_velocity, velocity_of, noop_step,
  row_step, scoped_step, flatten_action,
}

abbrev pub WhenOk : {A : Type 0} → (A → Type 0) → Result A → Type 0
WhenOk P (ok a) = P a
WhenOk P (err e) = Unit

after_bind :
    {A B : Type 0} (P : B → Type 0) (r : Result A) (f : A → Result B)
    → ((a : A) → r ≡ ok a → WhenOk P (f a))
    → WhenOk P (r >>= f)
after_bind P (ok a) f h = h a refl
after_bind P (err e) f h = tt

to_option : {A : Type 0} → Result A → Option A
to_option (ok a) = some a
to_option (err e) = none

WhenOk-map :
    {A : Type 0} (P Q : A → Type 0) (r : Result A) → ((a : A) → P a → Q a) → WhenOk P r → WhenOk Q r
WhenOk-map P Q (ok a) f h = f a h
WhenOk-map P Q (err e) f h = tt

ok_or-some : {A : Type 0} (o : Option A) (e : TypesError) (a : A) → ok_or o e ≡ ok a → o ≡ some a
unfolding to_option
ok_or-some none e a h = ground (arith, h)
ok_or-some (some b) e a h = ap (to_option) h

module _ {F : Type 0} where
  -- No hint, or one value for each value of the row.
  abbrev pub HintFits : ℕ → Option (List F) → Type 0
  HintFits expected none = Unit
  HintFits expected (some velocity) = length velocity ≡ expected

  -- A gripper command without a row, or a row of the expected width with a hint that fits.
  abbrev pub IsSized : ℕ → Option String → Step F → Type 0
  IsSized expected part step =
      (step.part ≡ part)
      × (((step.values ≡ []) × (is_some step.gripper ≡ true) × (step.velocity_feedforward ≡ none))
          ⊎ ((length step.values ≡ expected) × HintFits expected step.velocity_feedforward))

  -- Where a step comes out, an executable space is addressed, and the step has its size.
  abbrev pub Addressed : ActionSpace F → Option String → Step F → Type 0
  Addressed space part step =
      (inner : ActionSpace F) × (expected : ℕ) × (scoped space part ≡ ok inner)
      × (dims inner ≡ some expected)
      × IsSized expected part step

  width_of : (n : ℕ) (vs : List F) → not (has_width n vs) ≡ false → length vs ≡ n
  width_of n vs h = ground (arith, h)

  velocity_fits :
      (is_finite : F → Bool) (policy : VelocityFeedforwardPolicy) (space : ActionSpace F) (n : ℕ)
      (velocity : Option (List F))
      → WhenOk (HintFits n) (velocity_of is_finite policy space n velocity)
  unfolding velocity_of checked_velocity
  velocity_fits is_finite VelocityFeedforwardPolicy.ignore space n velocity = tt
  velocity_fits is_finite VelocityFeedforwardPolicy.honor space n none = tt
  velocity_fits is_finite VelocityFeedforwardPolicy.honor space n (some v) =
      elim (Bool-cases (not (supports_velocity_feedforward space))) [
        | inl e ↦ rw e tt
        | inr e ↦ elim (Bool-cases (not (has_width n v))) [
          | inl w ↦ rw (e, w) tt
          | inr w ↦ elim (Bool-cases (not (all_finite is_finite v))) [
            | inl i ↦ rw (e, w, i) tt
            | inr i ↦ rw (e, w, i) (width_of n v w)
          ]
        ]
      ]

  noop-IsSized :
      (is_finite : F → Bool) (policy : VelocityFeedforwardPolicy) (offset : ℤ) (gripper : Option F)
      (velocity : Option (List F)) (part : Option String) (n : ℕ)
      → WhenOk (IsSized n part) (noop_step is_finite policy offset gripper velocity part)
  unfolding noop_step
  noop-IsSized is_finite VelocityFeedforwardPolicy.honor offset gripper (some v) part n = tt
  noop-IsSized is_finite VelocityFeedforwardPolicy.honor offset none none part n = tt
  noop-IsSized is_finite VelocityFeedforwardPolicy.honor offset (some g) none part n =
      (refl, inl (refl, refl, refl))
  noop-IsSized is_finite VelocityFeedforwardPolicy.ignore offset none velocity part n = tt
  noop-IsSized is_finite VelocityFeedforwardPolicy.ignore offset (some g) velocity part n =
      (refl, inl (refl, refl, refl))

  row-IsSized :
      (is_finite : F → Bool) (policy : VelocityFeedforwardPolicy) (space : ActionSpace F) (n : ℕ)
      (part : Option String) (a : Action F) (values : List F)
      → WhenOk (IsSized n part) (row_step is_finite policy space n part a values)
  unfolding row_step
  row-IsSized is_finite policy space n part (Action.action target gripper offset p velocity)
        values =
      elim (Bool-cases (not (has_width n values))) [
        | inl e ↦ rw e tt
        | inr e ↦ rw e (
            after_bind (IsSized n part) (velocity_of is_finite policy space n velocity) _ λ v q. (
              refl,
              inr (
                width_of n values e,
                subst (WhenOk (HintFits n)) q (velocity_fits is_finite policy space n velocity),
              ),
            ))
      ]

  scoped-IsSized :
      (is_finite : F → Bool) (policy : VelocityFeedforwardPolicy) (space : ActionSpace F) (n : ℕ)
      (part : Option String) (a : Action F)
      → WhenOk (IsSized n part) (scoped_step is_finite policy space n part a)
  unfolding scoped_step
  scoped-IsSized is_finite policy space n part (Action.action target gripper offset p velocity) =
      elim (Bool-cases (is_noop target)) [
        | inl e ↦ rw e (noop-IsSized is_finite policy offset gripper velocity part n)
        | inr e ↦ elim (Bool-cases (is_some part && is_composite target)) [
          | inl c ↦ rw (e, c) tt
          | inr c ↦
              rw (e, c)
                (after_bind (IsSized n part) _ _ λ values q.
                  row-IsSized is_finite policy space n part
                    (Action.action target gripper offset p velocity) values)
        ]
      ]

  -- A step that comes out of an action, under either policy, has the size of the space that the action
  -- addresses: the part is declared, the width is known, and the step is a gripper command without a
  -- row and without a hint, or a row of that width whose velocity hint, if there is one, has that
  -- width too.
  pub flatten_action-Addressed :
      (is_finite : F → Bool) (a : Action F) (space : ActionSpace F) (parts : PartPolicy)
      (policy : VelocityFeedforwardPolicy)
      → WhenOk
          (Addressed space (addressed_part a parts))
          (flatten_action is_finite a space parts policy)
  unfolding flatten_action
  flatten_action-Addressed is_finite a space parts policy =
      after_bind (Addressed space (addressed_part a parts)) (scoped space (addressed_part a parts))
        _
        λ inner s.
          after_bind (Addressed space (addressed_part a parts))
            (ok_or (dims inner) TypesError.opaque_not_executable) _
            λ n d.
              WhenOk-map (IsSized n (addressed_part a parts))
                (Addressed space (addressed_part a parts)) _
                (λ step h. (inner, n, s, ok_or-some (dims inner) _ n d, h))
                (scoped-IsSized is_finite policy inner n (addressed_part a parts) a)
