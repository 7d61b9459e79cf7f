-- ===== src/Actions/Flatten/Back.antt =====
-- Rows out and back, for the conversions of waddle-core/crates/waddle-types/src/action.rs.
use waddle_sdk.Prelude.{ℕ, ◌≤◌, ◌≡◌, refl, ap, subst, false, some, List, [], length, arith}
use waddle_sdk.Actions.Space.{
  RotationEncoding, DeltaFrame, SpaceSpec, ActionSpace, Parts, dims, spec_dims, parts_dims,
}
use waddle_sdk.Actions.Message.{PartActions}
use waddle_sdk.Actions.Flatten.{
  is_declared, undeclared, flatten_spec, flatten_parts, unflatten_spec, unflatten_parts,
}
use waddle_sdk.Actions.Flatten.Leaves.{pose_back, joints_back, twists_back}
use waddle_sdk.Actions.Flatten.Pieces.{
  value_or, plus-parts, Returns, SpecReturns, PartsReturn, left_over, joined, composed, wrapped,
}

-- A space that can be executed: nothing of it is opaque, and its parts have different names, which is
-- what its conversion from the wire checks.
unfoldable mutual
  pub IsExecutable : {F : Type 0} → ActionSpace F → Type 0
  IsExecutable (ActionSpace.action_space spec rate_hz chunking gripper) = IsExecutableSpec spec

  pub IsExecutableSpec : {F : Type 0} → SpaceSpec F → Type 0
  IsExecutableSpec (SpaceSpec.opaque format_hint dim) = ⊥
  IsExecutableSpec (SpaceSpec.composite parts) = AreExecutable parts
  IsExecutableSpec _ = Unit

  pub AreExecutable : {F : Type 0} → Parts F → Type 0
  AreExecutable Parts.end = Unit
  AreExecutable (Parts.part name space parts) =
      (is_declared name parts ≡ false) × IsExecutable space × AreExecutable parts

mutual
  unfolding IsExecutable value_or dims unflatten_spec flatten_spec unflatten_parts flatten_parts
      undeclared

  returns :
      {F : Type 0} (space : ActionSpace F) (vs : List F) (n : ℕ)
      → IsExecutable space
      → dims space ≡ some n
      → n ≤ length vs
      → Returns space vs n
  returns (ActionSpace.action_space spec rate_hz chunking gripper) vs n x d h =
      wrapped spec rate_hz chunking gripper vs n (spec_returns spec vs n x d h)

  spec_returns :
      {F : Type 0} (spec : SpaceSpec F) (vs : List F) (n : ℕ)
      → IsExecutableSpec spec
      → spec_dims spec ≡ some n
      → n ≤ length vs
      → SpecReturns spec vs n
  spec_returns (SpaceSpec.joint_position joints) vs n x d h =
      subst (SpecReturns (SpaceSpec.joint_position joints) vs) (ap (value_or 0) d)
        (joints_back joints vs (omega (arith, ap (value_or 0) d, h))).0
  spec_returns (SpaceSpec.joint_velocity joints) vs n x d h =
      subst (SpecReturns (SpaceSpec.joint_velocity joints) vs) (ap (value_or 0) d)
        (joints_back joints vs (omega (arith, ap (value_or 0) d, h))).1
  spec_returns (SpaceSpec.ee_pose_delta frame rotation delta_frame linear angular) vs n x d h =
      subst (SpecReturns (SpaceSpec.ee_pose_delta frame rotation delta_frame linear angular) vs)
        (ap (value_or 0) d)
        (twists_back frame rotation delta_frame linear angular vs
          (omega (arith, ap (value_or 0) d, h))).0
  spec_returns (SpaceSpec.base_twist frame linear angular) vs n x d h =
      subst (SpecReturns (SpaceSpec.base_twist frame linear angular) vs) (ap (value_or 0) d)
        (twists_back frame RotationEncoding.rot_vec DeltaFrame.base linear angular vs
          (omega (arith, ap (value_or 0) d, h))).1
  spec_returns (SpaceSpec.ee_pose_abs frame rotation) vs n x d h =
      subst (SpecReturns (SpaceSpec.ee_pose_abs frame rotation) vs) (ap (value_or 0) d)
        (pose_back frame rotation vs (omega (arith, ap (value_or 0) d, h)))
  spec_returns (SpaceSpec.composite parts) vs n x d h =
      composed parts vs n (parts_return parts vs n x d h)
  spec_returns (SpaceSpec.opaque format_hint dim) vs n x d h = absurd x

  parts_return :
      {F : Type 0} (parts : Parts F) (vs : List F) (n : ℕ)
      → AreExecutable parts
      → parts_dims parts ≡ some n
      → n ≤ length vs
      → PartsReturn parts vs n
  parts_return Parts.end vs n x d h = record {
    sent = PartActions.end;
    rest = vs;
    row = [];
    out = refl;
    known = refl;
    back = refl;
    whole = refl;
    width = ap (value_or 0) d;
  }
  parts_return (Parts.part name space parts) vs n x d h =
      (let (k, m, dk, dm, sum) = plus-parts (dims space) (parts_dims parts) n d in
        let r = returns space vs k x.1 dk (omega (arith, sum, h)) in
        joined name space parts vs k m n x.0 sum r (
          parts_return parts r.rest m x.2 dm
            (left_over r.row r.rest vs k m n r.whole r.width sum h)))

-- For an executable space, a row of at least its width leaves as an action and comes back: the action
-- takes exactly the width from the front of the row, and flattening it gives these values again.
pub unflatten_target-Returns :
    {F : Type 0} (space : ActionSpace F) (vs : List F) (n : ℕ)
    → IsExecutable space
    → dims space ≡ some n
    → n ≤ length vs
    → Returns space vs n
unflatten_target-Returns space vs n x d h = returns space vs n x d h
