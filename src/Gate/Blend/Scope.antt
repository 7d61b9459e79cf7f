-- ===== src/Gate/Blend/Scope.antt =====
-- Which pairs cross-fade in blend.rs of waddle-core/crates/waddle-gate/src, and into what.
use waddle_sdk.Prelude.{
  ◌≡◌, true, false, refl, ◌⊎◌, inl, inr, Option, none, some, List, [], ◌∷◌, String, ◌==◌, eq_iff,
  length, is_some, is_none, Bool-cases, arith, ◌||◌, ◌&&◌,
}
use waddle_sdk.Prelude.Float.{F64Ops, F32Ops}
use waddle_sdk.Types.Chunking.{Interp}
use waddle_sdk.Gate.Action.{OwnedAction}
use waddle_sdk.Gate.Blend.{
  blend_step, mix_all, mix_gripper, weight, gripper_only, is_empty, crosses_parts, same_width,
}

-- The two actions may address the same hardware: one of them is untagged, or their parts agree.
abbrev pub SameScope : Option String → Option String → Type 0
SameScope (some anchor) (some target) = anchor ≡ target
SameScope _ _ = Unit

-- A whole-robot target needs no anchor; an arm row needs one of its own width.
abbrev pub AreEndpoints : {F : Type 0} → Option (OwnedAction F) → OwnedAction F → Type 0
AreEndpoints none to = (gripper_only to ≡ true) ⊎ (is_none to.part ≡ true)
AreEndpoints (some from) to =
    SameScope from.part to.part
    × ((gripper_only to ≡ true) ⊎ (length from.values ≡ length to.values))

-- No velocity hint survives a blend, and the blended row has the target's width; with no anchor the
-- target leaves unchanged.
abbrev pub IsBlend : {F : Type 0} → Option (OwnedAction F) → OwnedAction F → OwnedAction F → Type 0
IsBlend none to out = out ≡ to
IsBlend (some from) to out =
    (out.part ≡ to.part)
    × (out.velocity_feedforward ≡ none)
    × (length out.values ≡ length to.values)
    × (is_some out.gripper ≡ (is_some to.gripper || is_some from.gripper))

abbrev pub Crosses :
    {F : Type 0} → Option (OwnedAction F) → OwnedAction F → Option (OwnedAction F) → Type 0
Crosses from to (some out) = AreEndpoints from to × IsBlend from to out
Crosses from to none = ¬ AreEndpoints from to

module _ {F G : Type 0} (f64 : F64Ops F) (f32 : F32Ops G F) where
  length-mix_all :
      (w : F) (xs ys : List F)
      → length ys ≡ 0 ⊎ (length xs ≡ length ys)
      → length (mix_all f64 f32 w xs ys) ≡ length ys
  unfolding mix_all
  length-mix_all w [] [] h = refl
  length-mix_all w [] (y ∷ ys) h = ground arith
  length-mix_all w (x ∷ xs) [] h = refl
  length-mix_all w (x ∷ xs) (y ∷ ys) h = ground (arith, length-mix_all w xs ys)

  gripper_kept :
      (w : F) (a b : Option F) → is_some (mix_gripper f64 f32 w a b) ≡ (is_some b || is_some a)
  unfolding mix_gripper
  gripper_kept w none none = refl
  gripper_kept w none (some b) = refl
  gripper_kept w (some a) none = refl
  gripper_kept w (some a) (some b) = refl

  crosses_parts-SameScope :
      (anchor target : Option String)
      → ((crosses_parts anchor target ≡ true) × (¬ SameScope anchor target))
        ⊎ ((crosses_parts anchor target ≡ false) × SameScope anchor target)
  unfolding crosses_parts
  crosses_parts-SameScope none target = inr (refl, tt)
  crosses_parts-SameScope (some a) none = inr (refl, tt)
  crosses_parts-SameScope (some a) (some b) = elim (Bool-cases (a == b)) [
    | inl e ↦ inr (rw e refl, (eq_iff a b).0 e)
    | inr e ↦ inl (rw e refl, λ h. ground (arith, e, (eq_iff a b).1 h))
  ]

  no_row : (xs : List F) (g : Option F) → (is_empty xs && is_some g) ≡ true → length xs ≡ 0
  no_row [] g h = refl
  no_row (x ∷ xs) g h = ground (arith, h)

  widths :
      (from to : OwnedAction F)
      → same_width from.values to.values ≡ true
      → length from.values ≡ length to.values
  widths from to h = ground (arith, h)

  kept :
      (from to : OwnedAction F) (t : G) (interp : Interp)
      → (gripper_only to ≡ true) ⊎ (length from.values ≡ length to.values)
      → (to.part ≡ to.part)
        × (◌≡◌ {A = Option (List F)} none none)
        × (length (mix_all f64 f32 (f32.widen (weight f64 f32 interp t)) from.values to.values)
            ≡ length to.values)
        × (is_some
              (mix_gripper f64 f32 (f32.widen (weight f64 f32 interp t)) from.gripper to.gripper)
            ≡ (is_some to.gripper || is_some from.gripper))
  kept from to t interp h = (
    refl,
    refl,
    length-mix_all _ from.values to.values
        (elim h [ inl e ↦ inl (no_row to.values to.gripper e) | inr e ↦ inr e ]),
    gripper_kept _ from.gripper to.gripper,
  )

  -- A cross-fade takes place exactly between two end points of it: commands that may share their
  -- hardware, over rows of one width, where a gripper-only command needs no row. The result keeps the
  -- target's part and width and loses the velocity hint, and with no anchor the target crosses
  -- unchanged where it fabricates nothing: it is gripper-only or commands the whole robot.
  pub blend_step-Crosses :
      (from : Option (OwnedAction F)) (to : OwnedAction F) (t : G) (interp : Interp)
      → Crosses from to (blend_step f64 f32 from to t interp)
  unfolding blend_step
  blend_step-Crosses none to t interp = elim (Bool-cases (gripper_only to)) [
    | inl e ↦ rw e (inl e, refl)
    | inr e ↦ elim (Bool-cases (is_none to.part)) [
      | inl p ↦ rw (e, p) (inr p, refl)
      | inr p ↦
          rw (e, p) (λ h. elim h [ inl q ↦ ground (arith, e, q) | inr q ↦ ground (arith, p, q) ])
    ]
  ]
  blend_step-Crosses (some from) to t interp = elim (crosses_parts-SameScope from.part to.part) [
    | inl c ↦ rw (c.0) λ h. c.1 h.0
    | inr c ↦ elim (Bool-cases (gripper_only to)) [
      | inl e ↦ rw (c.0, e) ((c.1, inl e), kept from to t interp (inl e))
      | inr e ↦ elim (Bool-cases (same_width from.values to.values)) [
        | inl w ↦
            rw (c.0, e, w)
              ((c.1, inr (widths from to w)), kept from to t interp (inr (widths from to w)))
        | inr w ↦ rw (c.0, e, w) λ h. ground (arith, w, h)
      ]
    ]
  ]
