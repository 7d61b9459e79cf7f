-- ===== src/Actions/Step.antt =====
-- Whole actions as steps, and chunks of them, waddle-core/crates/waddle-types/src/action.rs. Whether an
-- `f64` is finite is an argument.
pub mod Width
use waddle_sdk.Prelude.{
  ℕ, Bool, true, false, ◌&&◌, not, Option, none, some, List, [], ◌∷◌, String, ◌==◌, length, leb,
  is_some, if◌then◌else◌,
}
use waddle_sdk.Prelude.Int.{ℤ}
use waddle_sdk.Actions.Errors.{TypesError, Result, ok, err, ◌>>=◌, ok_or}
use waddle_sdk.Actions.Space.{SpaceSpec, ActionSpace, Parts, dims}
use waddle_sdk.Actions.Message.{Target, TargetField, Action}
use waddle_sdk.Actions.Flatten.{flatten_target}

pub record Step (F : Type 0) : Type 0 where
  pub offset_ns : ℤ
  pub values : List F
  pub velocity_feedforward : Option (List F)
  pub gripper : Option F
  pub part : Option String

pub data PartPolicy : Type 0 where
  honor ignore : PartPolicy

pub data VelocityFeedforwardPolicy : Type 0 where
  honor ignore : VelocityFeedforwardPolicy

-- A part's name, where it is not empty.
abbrev pub named : String → Option String
named name = if name == "" then none else some name

unfoldable pub addressed_part : {F : Type 0} → Action F → PartPolicy → Option String
addressed_part (Action.action target gripper offset part velocity) PartPolicy.ignore = none
addressed_part (Action.action target gripper offset part velocity) PartPolicy.honor = named part

unfoldable pub find_space : {F : Type 0} → String → Parts F → Option (ActionSpace F)
find_space name Parts.end = none
find_space name (Parts.part declared space parts) =
    let rest = find_space name parts in if declared == name then some space else rest

unfoldable pub declared_part : {F : Type 0} → ActionSpace F → String → Result (ActionSpace F)
unfolding find_space
declared_part (ActionSpace.action_space (SpaceSpec.composite parts) rate_hz chunking gripper) name =
    ok_or (find_space name parts) (TypesError.unknown_part name)
declared_part _ name = err (TypesError.unknown_part name)

-- The space that an action addresses.
unfoldable pub scoped : {F : Type 0} → ActionSpace F → Option String → Result (ActionSpace F)
unfolding declared_part
scoped space none = ok space
scoped space (some name) = declared_part space name

unfoldable mutual
  pub supports_velocity_feedforward : {F : Type 0} → ActionSpace F → Bool
  supports_velocity_feedforward (ActionSpace.action_space spec rate_hz chunking gripper) =
      spec_supports spec

  pub spec_supports : {F : Type 0} → SpaceSpec F → Bool
  spec_supports (SpaceSpec.joint_position joints) = true
  spec_supports (SpaceSpec.composite parts) = parts_support parts
  spec_supports _ = false

  pub parts_support : {F : Type 0} → Parts F → Bool
  parts_support Parts.end = true
  parts_support (Parts.part name space parts) =
      supports_velocity_feedforward space && parts_support parts

abbrev pub is_noop : {F : Type 0} → TargetField F → Bool
is_noop (TargetField.set Target.noop) = true
is_noop _ = false

abbrev pub is_composite : {F : Type 0} → TargetField F → Bool
is_composite (TargetField.set (Target.composite actions)) = true
is_composite _ = false

abbrev pub has_width : {F : Type 0} → ℕ → List F → Bool
has_width expected values = leb (length values) expected && leb expected (length values)

module _ {F : Type 0} (is_finite : F → Bool) where
  abbrev pub all_finite : List F → Bool
  all_finite [] = true
  all_finite (v ∷ vs) = is_finite v && all_finite vs

  -- The checks on a velocity hint, for a space and its width.
  unfoldable pub checked_velocity : ActionSpace F → ℕ → List F → Result (List F)
  unfolding supports_velocity_feedforward
  checked_velocity space expected velocity =
      if not (supports_velocity_feedforward space)
      then err (
          TypesError.invalid_value "Action.joint_velocity_feedforward"
            "feedforward requires a joint-position target")
      else if not (has_width expected velocity)
      then err (TypesError.dimension_mismatch expected (length velocity))
      else if not (all_finite velocity)
      then err (
          TypesError.invalid_value "Action.joint_velocity_feedforward"
            "feedforward values must be finite")
      else ok velocity

  unfoldable pub velocity_of :
      VelocityFeedforwardPolicy → ActionSpace F → ℕ → Option (List F) → Result (Option (List F))
  unfolding checked_velocity
  velocity_of VelocityFeedforwardPolicy.ignore space expected velocity = ok none
  velocity_of VelocityFeedforwardPolicy.honor space expected none = ok none
  velocity_of VelocityFeedforwardPolicy.honor space expected (some velocity) = do
    v ← checked_velocity space expected velocity
    ok (some v)

  abbrev is_honored : VelocityFeedforwardPolicy → Bool
  is_honored VelocityFeedforwardPolicy.honor = true
  is_honored VelocityFeedforwardPolicy.ignore = false

  -- A NOOP marker: a gripper-only step, or nothing to execute.
  unfoldable pub noop_step :
      VelocityFeedforwardPolicy → ℤ → Option F → Option (List F) → Option String → Result (Step F)
  noop_step policy offset gripper velocity part =
      if is_honored policy && is_some velocity
      then err (
          TypesError.invalid_value "Action.joint_velocity_feedforward"
            "a noop/gripper-only action has no joint-position trajectory")
      else if is_some gripper
      then ok (record {
        offset_ns = offset;
        values = [];
        velocity_feedforward = none;
        gripper = gripper;
        part = part;
      })
      else err TypesError.noop_not_executable

  -- A row's step, once its target is flattened.
  unfoldable pub row_step :
      VelocityFeedforwardPolicy
      → ActionSpace F
      → ℕ
      → Option String
      → Action F
      → List F
      → Result (Step F)
  unfolding velocity_of
  row_step policy space expected part (Action.action target gripper offset p velocity) values =
      if not (has_width expected values)
      then err (TypesError.dimension_mismatch expected (length values))
      else (do
        v ← velocity_of policy space expected velocity
        ok (record {
          offset_ns = offset;
          values = values;
          velocity_feedforward = v;
          gripper = gripper;
          part = part;
        }))

  -- An action for the space that it addresses.
  unfoldable pub scoped_step :
      VelocityFeedforwardPolicy → ActionSpace F → ℕ → Option String → Action F → Result (Step F)
  unfolding noop_step row_step
  scoped_step policy space expected part (Action.action target gripper offset p velocity) =
      let row =
        flatten_target space (Action.action target gripper offset p velocity)
        >>= row_step policy space expected part (Action.action target gripper offset p velocity) in
      if is_noop target
      then noop_step policy offset gripper velocity part
      else if is_some part && is_composite target
      then err (
          TypesError.invalid_value "Action.target"
            "a part-scoped action may not carry a CompositeAction (nesting is depth 1)")
      else row

  -- `flatten_action_with_velocity_feedforward`.
  unfoldable pub flatten_action :
      Action F → ActionSpace F → PartPolicy → VelocityFeedforwardPolicy → Result (Step F)
  unfolding addressed_part scoped scoped_step
  flatten_action a space parts policy =
      let part = addressed_part a parts in
      do
        inner ← scoped space part
        expected ← ok_or (dims inner) TypesError.opaque_not_executable
        scoped_step policy inner expected part a
