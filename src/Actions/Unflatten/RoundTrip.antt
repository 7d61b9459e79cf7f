-- ===== src/Actions/Unflatten/RoundTrip.antt =====
-- Actions for the wire and back, waddle-core/crates/waddle-types/src/action.rs.
use waddle_sdk.Prelude.{
  ◌≡◌, refl, sym, ap, ◌∙◌, Bool, true, false, ◌&&◌, ◌⊎◌, inl, inr, Option, none, some, List, [],
  ◌∷◌, ◌++◌, String, ◌==◌, length, length-append, append_nil, is_some, is_none, arith, Bool-cases,
}
use waddle_sdk.Prelude.Int.{pos}
use waddle_sdk.Actions.Errors.{ok}
use waddle_sdk.Actions.Space.{SpaceSpec, ActionSpace, dims}
use waddle_sdk.Actions.Message.{Target, TargetField, Action}
use waddle_sdk.Actions.Flatten.{flatten_target, flatten_spec, bare}
use waddle_sdk.Actions.Flatten.Back.{IsExecutable, unflatten_target-Returns}
use waddle_sdk.Actions.Step.{
  Step, PartPolicy, VelocityFeedforwardPolicy, named, addressed_part, scoped, is_noop, is_composite,
  has_width, velocity_of, row_step, scoped_step, flatten_action,
}
use waddle_sdk.Actions.Unflatten.{non_empty, or_empty, is_empty, unflatten_row, unflatten_action}

abbrev pub is_composite_spec : {F : Type 0} → SpaceSpec F → Bool
is_composite_spec (SpaceSpec.composite parts) = true
is_composite_spec _ = false

abbrev pub is_composite_space : {F : Type 0} → ActionSpace F → Bool
is_composite_space (ActionSpace.action_space spec rate_hz chunking gripper) = is_composite_spec spec

named_again : (part : Option String) → named (or_empty (non_empty part)) ≡ non_empty part
named_again none = refl
named_again (some name) = elim (Bool-cases (name == "")) [
  | inl e ↦ rw e refl
  | inr e ↦ rw (e, e) refl
]

module _ {F : Type 0} where
  -- What flattens is no marker, and a composite target only where the space is composite.
  flattens :
      (spec : SpaceSpec F) (t : Target F) (row : List F)
      → flatten_spec spec t ≡ ok row
      → (is_noop (TargetField.set t) ≡ false)
        × (is_composite_spec spec ≡ false → is_composite (TargetField.set t) ≡ false)
  unfolding flatten_spec
  flattens spec (Target.joint_position v) row h = (refl, λ _. refl)
  flattens spec (Target.joint_velocity v) row h = (refl, λ _. refl)
  flattens spec (Target.ee_delta v) row h = (refl, λ _. refl)
  flattens spec (Target.base_twist v) row h = (refl, λ _. refl)
  flattens spec (Target.ee_absolute v) row h = (refl, λ _. refl)
  flattens spec Target.opaque row h = (refl, λ _. refl)
  flattens (SpaceSpec.composite parts) (Target.composite c) row h = (refl, λ e. ground (arith, e))
  flattens (SpaceSpec.joint_position j) (Target.composite c) row h = ground (arith, h)
  flattens (SpaceSpec.joint_velocity j) (Target.composite c) row h = ground (arith, h)
  flattens (SpaceSpec.ee_pose_delta a b c d e) (Target.composite q) row h = ground (arith, h)
  flattens (SpaceSpec.ee_pose_abs a b) (Target.composite q) row h = ground (arith, h)
  flattens (SpaceSpec.base_twist a b c) (Target.composite q) row h = ground (arith, h)
  flattens (SpaceSpec.opaque a b) (Target.composite q) row h = ground (arith, h)
  flattens (SpaceSpec.composite parts) Target.noop row h = ground (arith, h)
  flattens (SpaceSpec.joint_position j) Target.noop row h = ground (arith, h)
  flattens (SpaceSpec.joint_velocity j) Target.noop row h = ground (arith, h)
  flattens (SpaceSpec.ee_pose_delta a b c d e) Target.noop row h = ground (arith, h)
  flattens (SpaceSpec.ee_pose_abs a b) Target.noop row h = ground (arith, h)
  flattens (SpaceSpec.base_twist a b c) Target.noop row h = ground (arith, h)
  flattens (SpaceSpec.opaque a b) Target.noop row h = ground (arith, h)

  whole_row :
      (row rest values : List F) → row ++ rest ≡ values → length row ≡ length values → row ≡ values
  whole_row row [] values e w = sym (append_nil row) ∙ e
  whole_row row (x ∷ rest) values e w = ground (arith, w, ap length e, length-append row (x ∷ rest))

  has_width_lem : (values : List F) → has_width (length values) values ≡ true
  has_width_lem values = ground arith

  -- The step that an action gives for the space that it addresses.
  abbrev pub step_of : List F → Option (List F) → Option F → Option String → Step F
  step_of values velocity gripper part = record {
    offset_ns = pos 0;
    values = values;
    velocity_feedforward = velocity;
    gripper = gripper;
    part = part;
  }

  scoped-back :
      (is_finite : F → Bool) (space : ActionSpace F) (target : Target F) (values : List F)
      (velocity : Option (List F)) (gripper : Option F) (part : Option String) (name : String)
      → flatten_target space (bare target) ≡ ok values
      → (is_none part ≡ true) ⊎ (is_composite_space space ≡ false)
      → velocity_of is_finite VelocityFeedforwardPolicy.honor space (length values) velocity
        ≡ ok velocity
      → scoped_step is_finite VelocityFeedforwardPolicy.honor space
          (length values)
          part
          (Action.action (TargetField.set target) gripper (pos 0) name velocity)
        ≡ ok (step_of values velocity gripper part)
  unfolding scoped_step row_step flatten_target
  scoped-back is_finite (ActionSpace.action_space spec rate_hz chunking g) target values velocity
        gripper none name h c v =
      (let (marker, composite) = flattens spec target values h in
        rw (marker, h, has_width_lem values, v) refl)
  scoped-back is_finite (ActionSpace.action_space spec rate_hz chunking g) target values velocity
        gripper (some p) name h (inl c) v =
      ground (arith, c)
  scoped-back is_finite (ActionSpace.action_space spec rate_hz chunking g) target values velocity
        gripper (some p) name h (inr c) v =
      (let (marker, composite) = flattens spec target values h in
        rw (marker, composite c, h, has_width_lem values, v) refl)

  -- A row for an executable space, or for one of its parts, survives the wire: its action exists, and
  -- flattening that action with the parts and the velocity hint honoured gives a step with the same
  -- values, hint, gripper and part and no offset. The row has the width of the space that it
  -- addresses, the hint passes the checks, an addressed part is not itself composite, and the row is
  -- not the empty row of a gripper command.
  pub flatten_action-unflatten_action :
      (is_finite : F → Bool) (space inner : ActionSpace F) (values : List F)
      (velocity : Option (List F)) (gripper : Option F) (part : Option String)
      → scoped space (non_empty part) ≡ ok inner
      → IsExecutable inner
      → dims inner ≡ some (length values)
      → (is_none (non_empty part) ≡ true) ⊎ (is_composite_space inner ≡ false)
      → velocity_of is_finite VelocityFeedforwardPolicy.honor inner (length values) velocity
        ≡ ok velocity
      → (is_empty values && is_some gripper) ≡ false
      → (sent : Action F) × (unflatten_action is_finite values velocity gripper part space
          ≡ ok sent)
        × (flatten_action is_finite sent space PartPolicy.honor VelocityFeedforwardPolicy.honor
            ≡ ok (step_of values velocity gripper (non_empty part)))
  unfolding unflatten_action unflatten_row flatten_action addressed_part
  flatten_action-unflatten_action is_finite space inner values velocity gripper part s x d c v e =
      (let r = unflatten_target-Returns inner values (length values) x d (omega arith) in
        let back = r.back ∙ ap ok (whole_row r.row r.rest values r.whole r.width) in
        (
          Action.action (TargetField.set r.target) gripper (pos 0) (or_empty (non_empty part))
              velocity,
          rw (s, d, e, has_width_lem values, v, r.out) refl,
          rw (named_again part, s, d)
              (scoped-back is_finite inner r.target values velocity gripper (non_empty part)
                (or_empty (non_empty part)) back c v),
        ))
