-- ===== src/Gate/Examples.antt =====
-- The gate of waddle-core/crates/waddle-gate/src on concrete streams.
use waddle_sdk.Prelude.{◌≡◌, ◌≤◌, refl, true, false, none, some, List, [], ◌∷◌, if◌then◌else◌}
use waddle_sdk.Prelude.Int.{ℤ, pos}
use waddle_sdk.Prelude.Float.Samples.{thousandths, coarse}
use waddle_sdk.Types.Actor.{Provenance}
use waddle_sdk.Types.Chunking.{ReplanPolicy, Interp}
use waddle_sdk.Gate.Action.{OwnedAction, StreamChannel, TimedAction}
use waddle_sdk.Gate.Jitter.{JitterBuffer, new, ingest, pop_due}
use waddle_sdk.Gate.Jitter.Order.{PlaysDue, pop_due-PlaysDue}
use waddle_sdk.Gate.Jitter.Playout.{BufferOp, played_seqs, Rising, played_seqs-Rising}
use waddle_sdk.Gate.Jitter.Replan.{OnlyActive, buffer_after, buffer_after-OnlyActive}
use waddle_sdk.Gate.Plan.{PlanMode}
use waddle_sdk.Gate.Blend.{blend_step}
use waddle_sdk.Gate.Blend.Scope.{Crosses, blend_step-Crosses}
use waddle_sdk.Gate.Stats.{new as new_stats, filled, snapshot}
use waddle_sdk.Gate.Stats.Percentiles.{Reports, record_all, snapshot-record_all}
use waddle_sdk.Gate.Tick.{Gate, Call, gate_scoped}
use waddle_sdk.Gate.Tick.Agreement.{Ticks, gate_scoped-Ticks}
use waddle_sdk.Gate.DualWrite.{Sample, new as new_detector, feed, reset}
use waddle_sdk.Gate.DualWrite.Reference.{after, ever_due, due, feed-due}

abbrev reach : ℤ → OwnedAction ℤ
reach x = record {
  values = x ∷ x ∷ [];
  velocity_feedforward = some (pos 5 ∷ pos 5 ∷ []);
  gripper = some (pos 300);
  part = some "left";
}

abbrev from_chunk : ℤ → ℤ → TimedAction ℤ
from_chunk at x = record {
  channel = StreamChannel.agent_chunk;
  seq = 4;
  received = at;
  action = reach x;
  chunk = some (record { chunk_seq = 2; t_emitted_ns = pos 50 });
}

abbrev teleoperated : ℤ → ℤ → TimedAction ℤ
teleoperated at x = record {
  channel = StreamChannel.teleop;
  seq = 9;
  received = at;
  action = reach x;
  chunk = none;
}

abbrev two_waiting : JitterBuffer ℤ
two_waiting =
    ingest (ingest (new (pos 20) ReplanPolicy.blend) (from_chunk (pos 100) (pos 7)))
      (teleoperated (pos 90) (pos 3))

pop_due-PlaysDue_example : PlaysDue two_waiting (pos 130) (pop_due two_waiting (pos 130))
pop_due-PlaysDue_example = pop_due-PlaysDue two_waiting (pos 130)

abbrev history : List (BufferOp ℤ)
history =
    BufferOp.arrive (from_chunk (pos 100) (pos 7))
    ∷ BufferOp.arrive (teleoperated (pos 90) (pos 3))
    ∷ BufferOp.pop (pos 130)
    ∷ BufferOp.pop (pos 131)
    ∷ BufferOp.arrive (teleoperated (pos 135) (pos 4))
    ∷ BufferOp.pop (pos 400)
    ∷ []

played_seqs-Rising_example :
    Rising 0 (played_seqs StreamChannel.teleop (new (pos 20) ReplanPolicy.blend) history)
played_seqs-Rising_example =
    played_seqs-Rising StreamChannel.teleop (pos 20) ReplanPolicy.blend history

buffer_after-OnlyActive_example :
    OnlyActive (buffer_after (new (pos 20) ReplanPolicy.immediate) history)
buffer_after-OnlyActive_example =
    buffer_after-OnlyActive (pos 20) ReplanPolicy.immediate history refl

blend_step-Crosses_example : Crosses (some (reach (pos 100))) (reach (pos 900)) (
    blend_step thousandths coarse (some (reach (pos 100))) (reach (pos 900)) (pos 250) Interp.cubic)
blend_step-Crosses_example =
    blend_step-Crosses thousandths coarse (some (reach (pos 100))) (reach (pos 900)) (pos 250)
      Interp.cubic

abbrev streaming : Gate ℤ
streaming = record {
  stream = record { rx = from_chunk (pos 100) (pos 7) ∷ []; jitter = two_waiting };
  stats = new_stats;
  seq = 41;
  last_action = some (reach (pos 100));
  records_dropped = 0;
}

abbrev in_window : PlanMode
in_window =
    PlanMode.claimed
      (record { provenance = Provenance.policy; actor = none; bypass_approval = true })
      (some (record { start = pos 110; blend_ns = pos 60; interp = Interp.linear }))

abbrev asked : Call ℤ
asked = record {
  stamp = record { mono = pos 140; epoch = pos 1140 };
  mode = PlanMode.held;
  has_room = false;
  values = pos 1 ∷ pos 2 ∷ [];
  gripper = none;
  obs = some (pos 8 ∷ []);
  part = none;
}

gate_scoped-Ticks_example :
    Ticks streaming
      (record asked { mode = in_window })
      (gate_scoped thousandths coarse streaming (record asked { mode = in_window }))
gate_scoped-Ticks_example = gate_scoped-Ticks thousandths coarse streaming asked in_window refl

abbrev tick_times : List ℤ
tick_times = pos 10 ∷ pos 30 ∷ pos 35 ∷ pos 90 ∷ []

snapshot-record_all_example :
    (filled (record_all new_stats tick_times) ≤ 128)
    × Reports (record_all new_stats tick_times) (snapshot (record_all new_stats tick_times))
snapshot-record_all_example = snapshot-record_all tick_times

abbrev apart : ℤ → Sample ℤ
apart at = record { commanded = pos 5000 ∷ []; observed = pos 1000 ∷ []; at = at }

feed-due_example :
    (feed thousandths
      (after thousandths
        (pos 2000)
        (pos 50)
        (reset thousandths (
          after thousandths
            (pos 2000)
            (pos 50)
            (new_detector thousandths (pos 2000) (pos 50))
            (apart (pos 3) ∷ [])))
        (apart (pos 20) ∷ []))
      (apart (pos 80))).1
    ≡ (if ever_due thousandths (pos 2000) (pos 50) (apart (pos 20) ∷ [])
        then none
        else due thousandths (pos 2000) (pos 50) (apart (pos 80) ∷ apart (pos 20) ∷ []))
feed-due_example =
    feed-due thousandths (pos 2000) (pos 50) (apart (pos 80)) (apart (pos 20) ∷ [])
      (apart (pos 3) ∷ [])
