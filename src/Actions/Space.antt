-- ===== src/Actions/Space.antt =====
-- Action spaces, waddle-core/crates/waddle-types/src/space.rs.
use waddle_sdk.Prelude.{ℕ, ◌+◌, Bool, true, false, ◌||◌, Option, none, some, List, String, length}
use waddle_sdk.Prelude.Int.{ℤ}
use waddle_sdk.Types.Chunking.{ReplanPolicy, Interp}

pub record JointDescriptor (F : Type 0) : Type 0 where
  pub name : String
  pub min_position : Option F
  pub max_position : Option F
  pub max_velocity : Option F
  pub max_effort : Option F

pub data RotationEncoding : Type 0 where
  axis_angle rot_vec euler_rpy euler_xyz quat_xyzw quat_wxyz : RotationEncoding

pub data DeltaFrame : Type 0 where
  base body : DeltaFrame

pub record Chunking : Type 0 where
  pub horizon_steps : ℕ
  pub replan : ReplanPolicy
  pub interp : Interp

pub data GripperKind (F : Type 0) : Type 0 where
  parallel : (open_value closed_value : F) (action_dim : ℤ) → GripperKind F
  suction : GripperKind F
  dexterous : List (JointDescriptor F) → GripperKind F

mutual
  pub data SpaceSpec (F : Type 0) : Type 0 where
    joint_position joint_velocity : List (JointDescriptor F) → SpaceSpec F
    ee_pose_delta :
        (frame : String) (rotation : RotationEncoding) (delta_frame : DeltaFrame)
        (max_linear_step_m max_angular_step_rad : Option F)
        → SpaceSpec F
    ee_pose_abs : (frame : String) (rotation : RotationEncoding) → SpaceSpec F
    base_twist : (frame : String) (max_linear_mps max_angular_radps : Option F) → SpaceSpec F
    composite : Parts F → SpaceSpec F
    opaque : (format_hint : String) (dim : Option ℕ) → SpaceSpec F

  pub data ActionSpace (F : Type 0) : Type 0 where
    action_space :
        (spec : SpaceSpec F) (rate_hz : F) (chunking : Chunking) (gripper : Option (GripperKind F))
        → ActionSpace F

  -- The named parts of a composite space.
  pub data Parts (F : Type 0) : Type 0 where
    end : Parts F
    part : String → ActionSpace F → Parts F → Parts F

abbrev pub plus : Option ℕ → Option ℕ → Option ℕ
plus (some m) (some n) = some (m + n)
plus _ _ = none

unfoldable mutual
  pub dims : {F : Type 0} → ActionSpace F → Option ℕ
  dims (ActionSpace.action_space spec rate_hz chunking gripper) = spec_dims spec

  pub spec_dims : {F : Type 0} → SpaceSpec F → Option ℕ
  spec_dims (SpaceSpec.joint_position joints) = some (length joints)
  spec_dims (SpaceSpec.joint_velocity joints) = some (length joints)
  spec_dims (SpaceSpec.ee_pose_delta frame rotation delta_frame linear angular) = some 6
  spec_dims (SpaceSpec.base_twist frame linear angular) = some 6
  spec_dims (SpaceSpec.ee_pose_abs frame rotation) = some 7
  spec_dims (SpaceSpec.composite parts) = parts_dims parts
  spec_dims (SpaceSpec.opaque format_hint dim) = dim

  pub parts_dims : {F : Type 0} → Parts F → Option ℕ
  parts_dims Parts.end = some 0
  parts_dims (Parts.part name space parts) = plus (dims space) (parts_dims parts)

unfoldable mutual
  pub contains_delta : {F : Type 0} → ActionSpace F → Bool
  contains_delta (ActionSpace.action_space spec rate_hz chunking gripper) = spec_contains_delta spec

  pub spec_contains_delta : {F : Type 0} → SpaceSpec F → Bool
  spec_contains_delta (SpaceSpec.ee_pose_delta frame rotation delta_frame linear angular) = true
  spec_contains_delta (SpaceSpec.composite parts) = parts_contain_delta parts
  spec_contains_delta _ = false

  pub parts_contain_delta : {F : Type 0} → Parts F → Bool
  parts_contain_delta Parts.end = false
  parts_contain_delta (Parts.part name space parts) =
      contains_delta space || parts_contain_delta parts
