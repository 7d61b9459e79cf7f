-- ===== src/Actions/Unflatten.antt =====
-- A flat row as an action for the wire, `unflatten_action_with_velocity_feedforward` of
-- waddle-core/crates/waddle-types/src/action.rs.
pub mod RoundTrip
use waddle_sdk.Prelude.{
  ℕ, Bool, true, false, ◌&&◌, not, Option, none, some, List, [], ◌∷◌, String, length, is_some,
  if◌then◌else◌,
}
use waddle_sdk.Prelude.Int.{pos}
use waddle_sdk.Actions.Errors.{TypesError, Result, ok, err, ◌>>=◌, ok_or}
use waddle_sdk.Actions.Space.{ActionSpace, dims}
use waddle_sdk.Actions.Message.{Target, TargetField, Action}
use waddle_sdk.Actions.Flatten.{unflatten_target}
use waddle_sdk.Actions.Step.{VelocityFeedforwardPolicy, named, scoped, has_width, velocity_of}

abbrev pub non_empty : Option String → Option String
non_empty none = none
non_empty (some name) = named name

abbrev pub or_empty : Option String → String
or_empty none = ""
or_empty (some name) = name

abbrev pub is_empty : {A : Type 0} → List A → Bool
is_empty [] = true
is_empty (_ ∷ _) = false

-- The action's fields beside its target.
abbrev pub with_fields : {F : Type 0} → Option F → String → Option (List F) → Action F → Action F
with_fields gripper part velocity (Action.action target g offset p v) =
    Action.action target gripper offset part velocity

module _ {F : Type 0} (is_finite : F → Bool) where
  unfoldable pub unflatten_row :
      ActionSpace F → ℕ → List F → Option (List F) → Option F → String → Result (Action F)
  unfolding unflatten_target velocity_of
  unflatten_row space expected values velocity gripper part =
      if not (has_width expected values)
      then err (TypesError.dimension_mismatch expected (length values))
      else (do
        hint ← velocity_of is_finite VelocityFeedforwardPolicy.honor space expected velocity
        r ← unflatten_target space values
        ok (with_fields gripper part hint r.0))

  unfoldable pub gripper_action : Option (List F) → Option F → String → Result (Action F)
  gripper_action velocity gripper part =
      if is_some velocity
      then err (
          TypesError.invalid_value "Action.joint_velocity_feedforward"
            "a gripper-only action has no joint-position trajectory")
      else ok (Action.action (TargetField.set Target.noop) gripper (pos 0) part none)

  unfoldable pub unflatten_action :
      List F → Option (List F) → Option F → Option String → ActionSpace F → Result (Action F)
  unfolding scoped unflatten_row gripper_action
  unflatten_action values velocity gripper part space = do
    inner ← scoped space (non_empty part)
    expected ← ok_or (dims inner) TypesError.opaque_not_executable
    (if is_empty values && is_some gripper
        then gripper_action velocity gripper (or_empty (non_empty part))
        else unflatten_row inner expected values velocity gripper (or_empty (non_empty part)))
