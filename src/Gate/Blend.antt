-- ===== src/Gate/Blend.antt =====
-- Handoff blending, blend.rs of waddle-core/crates/waddle-gate/src.
pub mod Scope
use waddle_sdk.Prelude.{
  ℕ, Bool, true, false, ◌&&◌, ◌||◌, not, Option, none, some, List, [], ◌∷◌, String, ◌==◌, length,
  leb, is_some, is_none, if◌then◌else◌,
}
use waddle_sdk.Prelude.Float.{F64Ops, F32Ops}
use waddle_sdk.Types.Chunking.{Interp}
use waddle_sdk.Gate.Action.{OwnedAction}

-- Two different declared parts.
unfoldable pub crosses_parts : Option String → Option String → Bool
crosses_parts (some anchor) (some target) = not (anchor == target)
crosses_parts _ _ = false

abbrev pub is_empty : {A : Type 0} → List A → Bool
is_empty [] = true
is_empty (_ ∷ _) = false

abbrev pub gripper_only : {F : Type 0} → OwnedAction F → Bool
gripper_only to = is_empty to.values && is_some to.gripper

abbrev pub same_width : {F : Type 0} → List F → List F → Bool
same_width xs ys = leb (length xs) (length ys) && leb (length ys) (length xs)

module _ {F G : Type 0} (f64 : F64Ops F) (f32 : F32Ops G F) where
  -- Interpolation weight for the progress `t`.
  unfoldable pub weight : Interp → G → G
  weight Interp.hold t = if f32.ge (f32.clamp t f32.zero f32.one) f32.one then f32.one else f32.zero
  weight Interp.linear t = f32.clamp t f32.zero f32.one
  weight Interp.cubic t =
      let u = f32.clamp t f32.zero f32.one in
      f32.mul (f32.mul u u) (f32.sub f32.three (f32.mul f32.two u))

  -- `a * (1.0 - w) + b * w`.
  unfoldable pub mix : F → F → F → F
  mix w a b = f64.add (f64.mul a (f64.sub f64.one w)) (f64.mul b w)

  -- `from.values.iter().zip(to.values.iter())`.
  unfoldable pub mix_all : F → List F → List F → List F
  unfolding mix
  mix_all w [] ys = []
  mix_all w (x ∷ xs) [] = []
  mix_all w (x ∷ xs) (y ∷ ys) = mix w x y ∷ mix_all w xs ys

  unfoldable pub mix_gripper : F → Option F → Option F → Option F
  unfolding mix
  mix_gripper w (some a) (some b) = some (mix w a b)
  mix_gripper w none (some b) = some b
  mix_gripper w a none = a

  unfoldable pub blend_step :
      Option (OwnedAction F) → OwnedAction F → G → Interp → Option (OwnedAction F)
  unfolding crosses_parts weight mix_all mix_gripper
  blend_step none to t interp = if gripper_only to || is_none to.part then some to else none
  blend_step (some from) to t interp =
      if crosses_parts from.part to.part
        || (not (gripper_only to) && not (same_width from.values to.values))
      then none
      else (let w = f32.widen (weight interp t) in
          some (record {
            values = mix_all w from.values to.values;
            velocity_feedforward = none;
            gripper = mix_gripper w from.gripper to.gripper;
            part = to.part;
          }))
