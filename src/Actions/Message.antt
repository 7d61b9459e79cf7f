-- ===== src/Actions/Message.antt =====
-- The fields of the wire's `Action` that waddle-core/crates/waddle-types/src/action.rs reads and writes.
use waddle_sdk.Prelude.{Option, List, String}
use waddle_sdk.Prelude.Int.{ℤ}

pub record Vec3 (F : Type 0) : Type 0 where
  pub x : F
  pub y : F
  pub z : F

pub record Quat (F : Type 0) : Type 0 where
  pub w : F
  pub x : F
  pub y : F
  pub z : F

pub record Twist (F : Type 0) : Type 0 where
  pub linear : Option (Vec3 F)
  pub angular : Option (Vec3 F)

pub record Pose (F : Type 0) : Type 0 where
  pub position : Option (Vec3 F)
  pub rotation : Option (Quat F)
  pub frame_id : String

mutual
  pub data Target (F : Type 0) : Type 0 where
    joint_position joint_velocity : List F → Target F
    ee_delta base_twist : Twist F → Target F
    ee_absolute : Pose F → Target F
    composite : PartActions F → Target F
    opaque noop : Target F

  -- `Option<Target>` and `Option<Action>`.
  pub data TargetField (F : Type 0) : Type 0 where
    unset : TargetField F
    set : Target F → TargetField F

  pub data ActionField (F : Type 0) : Type 0 where
    absent : ActionField F
    present : Action F → ActionField F

  -- `gripper` is the commanded position.
  pub data Action (F : Type 0) : Type 0 where
    action :
        (target : TargetField F) (gripper : Option F) (t_offset_ns : ℤ) (part : String)
        (joint_velocity_feedforward : Option (List F))
        → Action F

  pub data PartActions (F : Type 0) : Type 0 where
    end : PartActions F
    part_action : (name : String) (inner : ActionField F) → PartActions F → PartActions F
