-- ===== src/Actions/Flatten.antt =====
-- From the wire's actions to flat rows and back, waddle-core/crates/waddle-types/src/action.rs.
pub mod Pieces
pub mod Leaves
pub mod Back
use waddle_sdk.Prelude.{
  ℕ, Bool, true, false, ◌&&◌, Option, none, some, List, [], ◌∷◌, ◌++◌, String, ◌==◌, length, leb,
  if◌then◌else◌,
}
use waddle_sdk.Prelude.Int.{ℤ, pos}
use waddle_sdk.Actions.Errors.{TypesError, Result, ok, err, ◌>>=◌, ok_or}
use waddle_sdk.Actions.Space.{JointDescriptor, SpaceSpec, ActionSpace, Parts}
use waddle_sdk.Actions.Message.{
  Vec3, Quat, Twist, Pose, Target, TargetField, ActionField, Action, PartActions,
}

abbrev pub same_length : {A B : Type 0} → List A → List B → Bool
same_length xs ys = leb (length xs) (length ys) && leb (length ys) (length xs)

module _ {F : Type 0} where
  unfoldable pub joint_row : List (JointDescriptor F) → List F → Result (List F)
  joint_row joints values =
      if same_length values joints
      then ok values
      else err (TypesError.dimension_mismatch (length joints) (length values))

  unfoldable pub twist_row : Twist F → Result (List F)
  twist_row t = do
    lin ← ok_or t.linear (TypesError.missing_field "Twist.linear")
    ang ← ok_or t.angular (TypesError.missing_field "Twist.angular")
    ok (lin.x ∷ lin.y ∷ lin.z ∷ ang.x ∷ ang.y ∷ ang.z ∷ [])

  unfoldable pub pose_row : String → Pose F → Result (List F)
  pose_row frame p =
      if p.frame_id == frame
      then (do
        at ← ok_or p.position (TypesError.missing_field "Pose.position")
        rot ← ok_or p.rotation (TypesError.missing_field "Pose.rotation")
        ok (at.x ∷ at.y ∷ at.z ∷ rot.w ∷ rot.x ∷ rot.y ∷ rot.z ∷ []))
      else err (TypesError.invalid_value "Pose.frame_id" "does not match the declared EE frame")

  unfoldable pub is_declared : String → Parts F → Bool
  is_declared name Parts.end = false
  is_declared name (Parts.part declared space parts) =
      let rest = is_declared name parts in if declared == name then true else rest

  -- The first part of the message that the space does not declare.
  unfoldable pub undeclared : Parts F → PartActions F → Option String
  unfolding is_declared
  undeclared parts PartActions.end = none
  undeclared parts (PartActions.part_action name inner actions) =
      let rest = undeclared parts actions in if is_declared name parts then rest else some name

  unfoldable pub find_action : String → PartActions F → Option (ActionField F)
  find_action name PartActions.end = none
  find_action name (PartActions.part_action other inner actions) =
      let rest = find_action name actions in if other == name then some inner else rest

  abbrev pub inner_action : ActionField F → Result (Action F)
  inner_action ActionField.absent = err (TypesError.missing_field "PartAction.action")
  inner_action (ActionField.present a) = ok a

  abbrev pub if_declared : Option String → Result (List F) → Result (List F)
  if_declared none row = row
  if_declared (some name) row = err (TypesError.unknown_part name)

  -- The row that a target appends for a space.
  unfoldable mutual
    unfolding joint_row twist_row pose_row undeclared find_action

    pub flatten_target : ActionSpace F → Action F → Result (List F)
    flatten_target space (Action.action TargetField.unset gripper offset part velocity) =
        err (TypesError.missing_field "Action.target")
    flatten_target (ActionSpace.action_space spec rate_hz chunking g)
          (Action.action (TargetField.set target) gripper offset part velocity) =
        flatten_spec spec target

    pub flatten_spec : SpaceSpec F → Target F → Result (List F)
    flatten_spec (SpaceSpec.joint_position joints) (Target.joint_position values) =
        joint_row joints values
    flatten_spec (SpaceSpec.joint_velocity joints) (Target.joint_velocity values) =
        joint_row joints values
    flatten_spec (SpaceSpec.ee_pose_delta frame rotation delta_frame linear angular)
          (Target.ee_delta t) =
        twist_row t
    flatten_spec (SpaceSpec.base_twist frame linear angular) (Target.base_twist t) = twist_row t
    flatten_spec (SpaceSpec.ee_pose_abs frame rotation) (Target.ee_absolute p) = pose_row frame p
    flatten_spec (SpaceSpec.composite parts) (Target.composite actions) =
        if_declared (undeclared parts actions) (flatten_parts parts actions)
    flatten_spec _ Target.opaque = err TypesError.opaque_not_executable
    flatten_spec _ Target.noop = err TypesError.noop_not_executable
    flatten_spec _ _ = err (
        TypesError.invalid_value "Action.target"
          "target arm does not match the declared action space")

    -- In the order of the declaration.
    pub flatten_parts : Parts F → PartActions F → Result (List F)
    flatten_parts Parts.end actions = ok []
    flatten_parts (Parts.part name space parts) actions = do
      field ← ok_or (find_action name actions) (TypesError.missing_part name)
      inner ← inner_action field
      row ← flatten_target space inner
      rows ← flatten_parts parts actions
      ok (row ++ rows)

  abbrev short : ℕ → List F → TypesError
  short n cursor = TypesError.dimension_mismatch n (length cursor)

  -- The first `n` values and the others.
  unfoldable pub split : List (JointDescriptor F) → List F → Option (List F × List F)
  split [] vs = some ([], vs)
  split (j ∷ joints) [] = none
  split (j ∷ joints) (v ∷ vs) = elim (split joints vs) [
    | none ↦ none
    | some r ↦ some (v ∷ r.0, r.1)
  ]

  abbrev pub joints_taken :
      (List F → Target F)
      → List (JointDescriptor F)
      → List F
      → Option (List F × List F)
      → Result (Target F × List F)
  joints_taken make joints vs none = err (short (length joints) vs)
  joints_taken make joints vs (some r) = ok (make r.0, r.1)

  -- Six values as a twist.
  unfoldable pub take_twist : (Twist F → Target F) → List F → Result (Target F × List F)
  take_twist make (a ∷ b ∷ c ∷ d ∷ e ∷ f ∷ vs) = ok (
    make (record {
      linear = some (record { x = a; y = b; z = c });
      angular = some (record { x = d; y = e; z = f });
    }),
    vs,
  )
  take_twist make vs = err (short 6 vs)

  unfoldable pub take_pose : String → List F → Result (Target F × List F)
  take_pose frame (a ∷ b ∷ c ∷ d ∷ e ∷ f ∷ g ∷ vs) = ok (
    Target.ee_absolute (record {
      position = some (record { x = a; y = b; z = c });
      rotation = some (record { w = d; x = e; y = f; z = g });
      frame_id = frame;
    }),
    vs,
  )
  take_pose frame vs = err (short 7 vs)

  abbrev pub bare : Target F → Action F
  bare target = Action.action (TargetField.set target) none (pos 0) "" none

  -- The target for a row of values, and the values that it leaves.
  unfoldable mutual
    unfolding split take_twist take_pose

    pub unflatten_target : ActionSpace F → List F → Result (Action F × List F)
    unflatten_target (ActionSpace.action_space spec rate_hz chunking g) cursor = do
      r ← unflatten_spec spec cursor
      ok (bare r.0, r.1)

    pub unflatten_spec : SpaceSpec F → List F → Result (Target F × List F)
    unflatten_spec (SpaceSpec.joint_position joints) cursor =
        joints_taken Target.joint_position joints cursor (split joints cursor)
    unflatten_spec (SpaceSpec.joint_velocity joints) cursor =
        joints_taken Target.joint_velocity joints cursor (split joints cursor)
    unflatten_spec (SpaceSpec.ee_pose_delta frame rotation delta_frame linear angular) cursor =
        take_twist Target.ee_delta cursor
    unflatten_spec (SpaceSpec.base_twist frame linear angular) cursor =
        take_twist Target.base_twist cursor
    unflatten_spec (SpaceSpec.ee_pose_abs frame rotation) cursor = take_pose frame cursor
    unflatten_spec (SpaceSpec.composite parts) cursor = do
      r ← unflatten_parts parts cursor
      ok (Target.composite r.0, r.1)
    unflatten_spec (SpaceSpec.opaque format_hint dim) cursor = err TypesError.opaque_not_executable

    pub unflatten_parts : Parts F → List F → Result (PartActions F × List F)
    unflatten_parts Parts.end cursor = ok (PartActions.end, cursor)
    unflatten_parts (Parts.part name space parts) cursor = do
      first ← unflatten_target space cursor
      rest ← unflatten_parts parts first.1
      ok (PartActions.part_action name (ActionField.present first.0) rest.0, rest.1)
