-- ===== src/Runtime/Proprio.antt =====
-- The latest proprioceptive state of each part, in reducer.rs of waddle-core/crates/waddle-runtime/src,
-- with the reports of session.rs and the joints of jog.rs. `F` stands for `f64`. The map of
-- the parts is an association list in the order of the names, and that order of texts is an argument.
use waddle_sdk.Prelude.{
  Bool, true, false, ◌&&◌, ◌||◌, not, Option, none, some, List, [], ◌∷◌, String, ◌==◌, is_none,
  if◌then◌else◌,
}
use waddle_sdk.Prelude.Int.{ℤ, pos, ltb_ℤ}
use waddle_sdk.Types.Time.{MonoNs, Stamp}
use waddle_sdk.Types.Wrapping.{sub_i64}
use waddle_sdk.Actions.Message.{Pose}

module _ (F : Type 0) where
  -- The pose is that of `EePose::to_pb`.
  pub record ProprioReport : Type 0 where
    pub part : String
    pub joint_pos : Option (List F)
    pub joint_vel : Option (List F)
    pub ee_pose : Option (Pose F)
    pub gripper : Option F

  pub record StampedProprioReport : Type 0 where
    pub report : ProprioReport
    pub stamp : Stamp

  pub record ProprioExtras : Type 0 where
    pub joint_vel : List F
    pub ee_pose : Option (Pose F)
    pub gripper : Option F

  pub record PartProprio : Type 0 where
    pub joint_pos : List F
    pub extras : ProprioExtras
    pub last_uplink_ns : Option ℤ

  pub record ProprioSample : Type 0 where
    pub joint_pos : List F
    pub joint_vel : List F
    pub ee_pose : Option (Pose F)
    pub gripper : Option F
    pub part : String

  abbrev pub PartMap : Type 0
  PartMap = List (String × PartProprio)

  abbrev pub LatestJoints : Type 0
  LatestJoints = String → Option (MonoNs × List F)

-- The robot as declared.
abbrev pub sole_part : String
sole_part = ""

abbrev pub or_before : {A : Type 0} → Option A → A → A
or_before none before = before
or_before (some a) before = a

abbrev pub or_else_before : {A : Type 0} → Option A → Option A → Option A
or_else_before none before = before
or_else_before (some a) before = some a

abbrev pub uplink_period : ℤ
uplink_period = pos 100000000

abbrev pub waited : Option ℤ → MonoNs → Bool
waited none now = true
waited (some last) now = not (ltb_ℤ (sub_i64 now last) uplink_period)

abbrev pub is_sole : String → Bool
is_sole part = part == sole_part

module _ {F : Type 0} where
  -- `ProprioExtras::merge`: a field that the report leaves out is kept.
  unfoldable pub merge : ProprioExtras F → ProprioReport F → ProprioExtras F
  merge e r = record {
    joint_vel = or_before r.joint_vel e.joint_vel;
    ee_pose = or_else_before r.ee_pose e.ee_pose;
    gripper = or_else_before r.gripper e.gripper;
  }

  unfoldable pub empty_part : PartProprio F
  empty_part = record {
    joint_pos = [];
    extras = record { joint_vel = []; ee_pose = none; gripper = none };
    last_uplink_ns = none;
  }

  abbrev pub find_part : PartMap F → String → Option (PartProprio F)
  find_part [] part = none
  find_part ((name, p) ∷ parts) part = if name == part then some p else find_part parts part

  -- What `part_mut` finds: created empty on first mention.
  unfoldable pub part_or_empty : PartMap F → String → PartProprio F
  unfolding empty_part
  part_or_empty parts part = or_before (find_part parts part) empty_part

  abbrev pub set_part : (String → String → Bool) → PartMap F → String → PartProprio F → PartMap F
  set_part before [] part p = (part, p) ∷ []
  set_part before ((name, q) ∷ parts) part p =
      if name == part
      then (part, p) ∷ parts
      else if before part name
      then (part, p) ∷ (name, q) ∷ parts
      else (name, q) ∷ set_part before parts part p

  abbrev pub sample_of : String → PartProprio F → ProprioSample F
  sample_of part p = record {
    joint_pos = p.joint_pos;
    joint_vel = p.extras.joint_vel;
    ee_pose = p.extras.ee_pose;
    gripper = p.extras.gripper;
    part = part;
  }

  unfoldable pub proprio_sample_for : PartMap F → String → ProprioSample F
  unfolding part_or_empty
  proprio_sample_for parts part = sample_of part (part_or_empty parts part)

  -- A report patches its own part.
  unfoldable pub take_report : (String → String → Bool) → PartMap F → ProprioReport F → PartMap F
  unfolding part_or_empty merge
  take_report before parts r =
      let p = part_or_empty parts r.part in
      set_part before parts r.part
        (record p { joint_pos = or_before r.joint_pos p.joint_pos; extras = merge p.extras r })

  -- An observation of the caller's gate is the joint position of the sole part.
  unfoldable pub take_obs : (String → String → Bool) → PartMap F → List F → PartMap F
  unfolding part_or_empty
  take_obs before parts obs =
      set_part before parts sole_part (record (part_or_empty parts sole_part) { joint_pos = obs })

  abbrev seen_after : Option (MonoNs × List F) → MonoNs → Bool
  seen_after none at = false
  seen_after (some (seen, values)) at = ltb_ℤ at seen

  -- `LatestJoints::publish`: never by an older one.
  unfoldable pub publish_joints : LatestJoints F → String → MonoNs → List F → LatestJoints F
  publish_joints joints part at values = if seen_after (joints part) at then joints else λ other.
      if other == part then some (at, values) else joints other

  abbrev no_values : List F → Bool
  no_values [] = true
  no_values (_ ∷ _) = false

  -- `PartProprio::is_empty`.
  abbrev pub part_is_empty : PartProprio F → Bool
  part_is_empty p =
      no_values p.joint_pos
      && no_values p.extras.joint_vel
      && is_none p.extras.ee_pose
      && is_none p.extras.gripper

  abbrev pub uplink_due : Bool → MonoNs → String × PartProprio F → Bool
  uplink_due negotiated now (part, p) =
      not (part_is_empty p) && waited p.last_uplink_ns now && (negotiated || is_sole part)

  -- `maybe_uplink_observation`: the samples of the parts that are due, in the order of their names,
  -- and the parts with the instant at which they went. A named part goes only where parts are
  -- negotiated.
  unfoldable pub uplink : Bool → MonoNs → PartMap F → List (ProprioSample F) × PartMap F
  unfolding sub_i64
  uplink negotiated now [] = ([], [])
  uplink negotiated now ((part, p) ∷ parts) =
      let (samples, rest) = uplink negotiated now parts in
      if uplink_due negotiated now (part, p)
      then (sample_of part p ∷ samples, (part, record p { last_uplink_ns = some now }) ∷ rest)
      else (samples, (part, p) ∷ rest)
