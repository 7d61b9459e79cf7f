-- ===== src/Actions/Examples.antt =====
-- A two-part robot's actions, for waddle-core/crates/waddle-types/src/action.rs and space.rs.
use waddle_sdk.Prelude.{◌≡◌, refl, inr, true, none, some, List, [], ◌∷◌, arith}
use waddle_sdk.Prelude.Int.{ℤ, pos}
use waddle_sdk.Types.Chunking.{ReplanPolicy, Interp}
use waddle_sdk.Actions.Errors.{ok}
use waddle_sdk.Actions.Space.{JointDescriptor, Chunking, SpaceSpec, ActionSpace, Parts, dims}
use waddle_sdk.Actions.Message.{Target, TargetField, Action}
use waddle_sdk.Actions.Step.Width.{WhenOk, Addressed, flatten_action-Addressed}
use waddle_sdk.Actions.Flatten.{is_declared}
use waddle_sdk.Actions.Flatten.Pieces.{Returns}
use waddle_sdk.Actions.Flatten.Back.{IsExecutable, unflatten_target-Returns}
use waddle_sdk.Actions.Step.{
  PartPolicy, VelocityFeedforwardPolicy, addressed_part, scoped, velocity_of, flatten_action,
}
use waddle_sdk.Actions.Unflatten.{non_empty, unflatten_action}
use waddle_sdk.Actions.Unflatten.RoundTrip.{step_of, flatten_action-unflatten_action}

abbrev joint : JointDescriptor ℤ
joint = record {
  name = "j";
  min_position = none;
  max_position = none;
  max_velocity = none;
  max_effort = none;
}

abbrev step_by_step : Chunking
step_by_step = record { horizon_steps = 1; replan = ReplanPolicy.immediate; interp = Interp.hold }

abbrev arm : ActionSpace ℤ
arm =
    ActionSpace.action_space (SpaceSpec.joint_position (joint ∷ joint ∷ [])) (pos 30) step_by_step
      none

abbrev mobile_base : ActionSpace ℤ
mobile_base =
    ActionSpace.action_space (SpaceSpec.base_twist "base" none none) (pos 30) step_by_step none

abbrev robot : ActionSpace ℤ
robot =
    ActionSpace.action_space
      (SpaceSpec.composite (Parts.part "arm" arm (Parts.part "base" mobile_base Parts.end)))
      (pos 30) step_by_step none

abbrev row : List ℤ
row = pos 1 ∷ pos 2 ∷ pos 3 ∷ pos 4 ∷ pos 5 ∷ pos 6 ∷ pos 7 ∷ pos 8 ∷ pos 9 ∷ []

robot-IsExecutable : IsExecutable robot
unfolding IsExecutable is_declared
robot-IsExecutable = (refl, tt, (refl, tt, tt))

unflatten_target-Returns_example : Returns robot row 8
unfolding dims
unflatten_target-Returns_example =
    unflatten_target-Returns robot row 8 robot-IsExecutable refl (omega arith)

flatten_action-unflatten_action_example :
    (sent : Action ℤ) × (unflatten_action
        (λ v. true)
        (pos 4 ∷ pos 5 ∷ [])
        (some (pos 1 ∷ pos 1 ∷ []))
        (some (pos 700))
        (some "arm")
        robot
      ≡ ok sent)
    × (flatten_action (λ v. true) sent robot PartPolicy.honor VelocityFeedforwardPolicy.honor
        ≡ ok (
            step_of
              (pos 4 ∷ pos 5 ∷ [])
              (some (pos 1 ∷ pos 1 ∷ []))
              (some (pos 700))
              (non_empty (some "arm"))))
unfolding IsExecutable dims scoped velocity_of
flatten_action-unflatten_action_example =
    flatten_action-unflatten_action (λ v. true) robot arm (pos 4 ∷ pos 5 ∷ [])
      (some (pos 1 ∷ pos 1 ∷ [])) (some (pos 700)) (some "arm") refl tt refl (inr refl) refl refl

abbrev reaching : Action ℤ
reaching =
    Action.action (TargetField.set (Target.joint_position (pos 4 ∷ pos 5 ∷ []))) (some (pos 300))
      (pos 20) "arm" (some (pos 1 ∷ pos 2 ∷ []))

flatten_action-Addressed_example :
    WhenOk
      (Addressed robot (addressed_part reaching PartPolicy.honor))
      (flatten_action (λ v. true) reaching robot PartPolicy.honor VelocityFeedforwardPolicy.honor)
flatten_action-Addressed_example =
    flatten_action-Addressed (λ v. true) reaching robot PartPolicy.honor
      VelocityFeedforwardPolicy.honor
