-- ===== src/Actions/Flatten/Leaves.antt =====
-- Rows of the leaves of a space, for the conversions of waddle-core/crates/waddle-types/src/action.rs.
use waddle_sdk.Prelude.{
  ◌≤◌, ◌≡◌, refl, ap, Option, some, List, [], ◌∷◌, ◌++◌, String, eq_iff, length, arith,
}
use waddle_sdk.Actions.Errors.{ok}
use waddle_sdk.Actions.Space.{JointDescriptor, RotationEncoding, DeltaFrame, SpaceSpec}
use waddle_sdk.Actions.Message.{Twist, Target}
use waddle_sdk.Actions.Flatten.{
  joint_row, twist_row, pose_row, flatten_spec, split, take_twist, take_pose, unflatten_spec,
}
use waddle_sdk.Actions.Flatten.Pieces.{SpecReturns}

module _ {F : Type 0} where
  record Split (joints : List (JointDescriptor F)) (vs : List F) : Type 0 where
    parts : List F × List F
    found : split joints vs ≡ some parts
    whole : parts.0 ++ parts.1 ≡ vs
    width : length parts.0 ≡ length joints

  splits :
      (joints : List (JointDescriptor F)) (vs : List F)
      → length joints ≤ length vs
      → Split joints vs
  unfolding split
  splits [] vs h = record { parts = ([], vs); found = refl; whole = refl; width = refl }
  splits (j ∷ joints) [] h = ground (arith, h)
  splits (j ∷ joints) (v ∷ vs) h =
      let s = splits joints vs (omega (arith, h)) in
      record {
        parts = (v ∷ s.parts.0, s.parts.1);
        found = rw (s.found) refl;
        whole = ap (λ xs. v ∷ xs) s.whole;
        width = omega (arith, s.width);
      }

  joint_row_lem :
      (joints : List (JointDescriptor F)) (values : List F)
      → length values ≡ length joints
      → joint_row joints values ≡ ok values
  unfolding joint_row
  joint_row_lem joints values h = ground (arith, h)

  twist_back :
      (make : Twist F → Target F) (vs : List F)
      → 6 ≤ length vs
      → (r : (Twist F × List F)) × (row : List F) × (take_twist make vs ≡ ok (make r.0, r.1))
        × (twist_row r.0 ≡ ok row)
        × (row ++ r.1 ≡ vs)
        × (length row ≡ 6)
  unfolding take_twist twist_row
  twist_back make (a ∷ b ∷ c ∷ d ∷ e ∷ f ∷ vs) h = ((_, vs), _, refl, refl, refl, refl)
  twist_back make (a ∷ b ∷ c ∷ d ∷ e ∷ []) h = ground (arith, h)
  twist_back make (a ∷ b ∷ c ∷ d ∷ []) h = ground (arith, h)
  twist_back make (a ∷ b ∷ c ∷ []) h = ground (arith, h)
  twist_back make (a ∷ b ∷ []) h = ground (arith, h)
  twist_back make (a ∷ []) h = ground (arith, h)
  twist_back make [] h = ground (arith, h)

  pub pose_back :
      (frame : String) (rotation : RotationEncoding) (vs : List F)
      → 7 ≤ length vs
      → SpecReturns (SpaceSpec.ee_pose_abs frame rotation) vs 7
  unfolding unflatten_spec flatten_spec take_pose pose_row
  pose_back frame rotation (a ∷ b ∷ c ∷ d ∷ e ∷ f ∷ g ∷ vs) h = record {
    sent = _;
    rest = vs;
    row = a ∷ b ∷ c ∷ d ∷ e ∷ f ∷ g ∷ [];
    out = refl;
    back = rw ((eq_iff frame frame).1 refl) refl;
    whole = refl;
    width = refl;
  }
  pose_back frame rotation (a ∷ b ∷ c ∷ d ∷ e ∷ f ∷ []) h = ground (arith, h)
  pose_back frame rotation (a ∷ b ∷ c ∷ d ∷ e ∷ []) h = ground (arith, h)
  pose_back frame rotation (a ∷ b ∷ c ∷ d ∷ []) h = ground (arith, h)
  pose_back frame rotation (a ∷ b ∷ c ∷ []) h = ground (arith, h)
  pose_back frame rotation (a ∷ b ∷ []) h = ground (arith, h)
  pose_back frame rotation (a ∷ []) h = ground (arith, h)
  pose_back frame rotation [] h = ground (arith, h)

  pub joints_back :
      (joints : List (JointDescriptor F)) (vs : List F)
      → length joints ≤ length vs
      → SpecReturns (SpaceSpec.joint_position joints) vs (length joints)
        × SpecReturns (SpaceSpec.joint_velocity joints) vs (length joints)
  unfolding unflatten_spec flatten_spec
  joints_back joints vs h =
      (let s = splits joints vs h in
        (
          record {
            sent = Target.joint_position s.parts.0;
            rest = s.parts.1;
            row = s.parts.0;
            out = rw (s.found) refl;
            back = joint_row_lem joints s.parts.0 s.width;
            whole = s.whole;
            width = s.width;
          },
          record {
            sent = Target.joint_velocity s.parts.0;
            rest = s.parts.1;
            row = s.parts.0;
            out = rw (s.found) refl;
            back = joint_row_lem joints s.parts.0 s.width;
            whole = s.whole;
            width = s.width;
          },
        ))

  pub twists_back :
      (frame : String) (rotation : RotationEncoding) (delta_frame : DeltaFrame)
      (linear angular : Option F) (vs : List F)
      → 6 ≤ length vs
      → SpecReturns (SpaceSpec.ee_pose_delta frame rotation delta_frame linear angular) vs 6
        × SpecReturns (SpaceSpec.base_twist frame linear angular) vs 6
  unfolding unflatten_spec flatten_spec
  twists_back frame rotation delta_frame linear angular vs h =
      (let (r, row, out, back, whole, width) = twist_back Target.ee_delta vs h in
        let (q, qrow, qout, qback, qwhole, qwidth) = twist_back Target.base_twist vs h in
        (
          record {
            sent = Target.ee_delta r.0;
            rest = r.1;
            row = row;
            out = out;
            back = back;
            whole = whole;
            width = width;
          },
          record {
            sent = Target.base_twist q.0;
            rest = q.1;
            row = qrow;
            out = qout;
            back = qback;
            whole = qwhole;
            width = qwidth;
          },
        ))
