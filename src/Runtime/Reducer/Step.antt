-- ===== src/Runtime/Reducer/Step.antt =====
-- How reducer.rs takes an event: its bookkeeping, the machine's step, the effects and the ack.
use waddle_sdk.Prelude.{ℕ, ◌+◌, false, Option, none, some}
use waddle_sdk.Outcome.{Outcome, done, rejected, panicked}
use waddle_sdk.Session.Event.{SessionEvent}
use waddle_sdk.Session.State.{Step}
use waddle_sdk.Session.Machine.{step}
use waddle_sdk.Runtime.Acks.{StepResult, FinishedAck, Injected, put, record_outcome}
use waddle_sdk.Runtime.Recording.Episode.{open_episode_records, finalize_episode_if_terminal}
use waddle_sdk.Runtime.Mirror.{publish}
use waddle_sdk.Runtime.Reducer.{Reducer, ToPlane, to_plane, apply_effects}

module _ {F : Type 0} where
  -- The bookkeeping before the step.
  unfoldable pub before_step : Reducer F → SessionEvent → Reducer F
  unfolding open_episode_records
  before_step r (SessionEvent.episode_open q at) = record r {
    reads = r.reads + 2;
    recording =
        open_episode_records r.recording r.fsm.episode q.id q.born_claimed q.parent q.post_reset
          (r.clock r.reads) (r.clock (r.reads + 1));
  }
  before_step r _ = r

  -- An accepted step: its state, its effects, the status and the end of the recording.
  unfoldable pub accept : Reducer F → Step → Reducer F
  unfolding apply_effects publish finalize_episode_if_terminal
  accept r stepped =
      let applied = apply_effects (record r { fsm = stepped.next }) stepped.effects in
      record applied {
        reads = applied.reads + 1;
        mirror = publish applied.fsm applied.mirror;
        recording =
            finalize_episode_if_terminal applied.recording applied.fsm.episode false
              (applied.clock applied.reads);
      }

  abbrev pub answered : Reducer F → Option FinishedAck → Reducer F
  answered r none = r
  answered r (some finished) = record r {
    sent = to_plane r.has_plane r.sent (ToPlane.ack finished);
  }

  -- The outcome, recorded with the event's group, if it has one.
  unfoldable pub acknowledge : Reducer F → Option ℕ → StepResult → Reducer F
  unfolding record_outcome
  acknowledge r none outcome = r
  acknowledge r (some at) outcome =
      let (group, finished) = record_outcome (r.groups at) outcome in
      answered (record r { groups = put r.groups at group }) finished

  abbrev pub conclude : Reducer F → Option ℕ → Outcome Step → Outcome (Reducer F)
  conclude r at (done stepped) = done (acknowledge (accept r stepped) at StepResult.accepted)
  conclude r at (rejected reason) = done (acknowledge r at (StepResult.refused reason))
  conclude r at (panicked message) = panicked message

  unfoldable pub step_and_apply : Reducer F → Injected → Outcome (Reducer F)
  unfolding before_step accept acknowledge step
  step_and_apply r injected =
      conclude (before_step r injected.event) injected.ack (step r.cfg r.fsm injected.event)
