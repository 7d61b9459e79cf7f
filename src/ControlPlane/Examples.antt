-- ===== src/ControlPlane/Examples.antt =====
-- The control-plane client's parts, waddle-core/crates/waddle-controlplane/src, on concrete histories.
use waddle_sdk.Prelude.{
  true, false, ℕ, ◌-◌, ◌%◌, ◌^◌, ◌≡◌, ◌≤◌, refl, false, none, List, [], ◌∷◌, length, arith,
}
use waddle_sdk.Prelude.Int.{ℤ, pos, ◌-ℤ◌}
use waddle_sdk.Prelude.Float.Samples.{thousandths}
use waddle_sdk.Prelude.Recent.{recent}
use waddle_sdk.ControlPlane.Backoff.{production, delay_ns}
use waddle_sdk.ControlPlane.Buffer.{OfflineBuffer, new, push, drain, len}
use waddle_sdk.ControlPlane.Messages.{Payload, GateMsg, ClientMsg, buffer_when_offline}
use waddle_sdk.ControlPlane.Client.{Received, Poll, connect}
use waddle_sdk.ControlPlane.Client.Offline.{Kept}
use waddle_sdk.ControlPlane.Client.Barrier.{admitted, Barred, connect-Barred}
use waddle_sdk.ControlPlane.Buffer.Replay.{at_least_one, push_all, drain-push_all}
use waddle_sdk.ControlPlane.Inflight.{
  Sink, new as new_sink, begin_admit, enter, back_off, entered, backed_off, Reached, start, next,
}
use waddle_sdk.ControlPlane.Inflight.Bound.{Bounded, Passes, Reached-Bounded}
use waddle_sdk.ControlPlane.Heartbeat.{ProxyInputs, build_ping}
use waddle_sdk.ControlPlane.Heartbeat.RoundTrip.{
  Ack, note_all, last_round_trip, build_ping-note_all,
}

reconnect_delays :
    delay_ns production 0 ∷ delay_ns production 1 ∷ delay_ns production 7 ∷ []
    ≡ pos 1000000000 ∷ pos 4000000000 ∷ pos 16000000000 ∷ []
unfolding production delay_ns
reconnect_delays = refl

abbrev three : List ℕ
three = 7 ∷ 8 ∷ 9 ∷ []

drain-push_all_example :
    (drain (push_all (new {A = ℕ} 2) three) ≡ (
      recent (at_least_one 2) three,
      record {
        items = [];
        capacity = at_least_one 2;
        dropped = (length three - at_least_one 2) % 2 ^ 64;
      },
    ))
    × (len (push_all (new 2) three) ≤ at_least_one 2)
drain-push_all_example = drain-push_all 2 three

-- Three callers: two race for one slot, and the third sends a message that is not droppable.
abbrev raced : Sink
raced = back_off (begin_admit false (enter (enter (new_sink 1 3))))

raced-Reached : Reached 1 3 raced
unfolding new_sink begin_admit enter back_off
raced-Reached =
    next (begin_admit false (enter (enter (new_sink 1 3)))) raced
      (next (enter (enter (new_sink 1 3))) (begin_admit false (enter (enter (new_sink 1 3))))
        (next (enter (new_sink 1 3)) (enter (enter (new_sink 1 3)))
          (next (new_sink 1 3) (enter (new_sink 1 3)) start
            (entered (new_sink 1 3) true (omega arith)))
          (entered (enter (new_sink 1 3)) true (omega arith)))
        (entered (enter (enter (new_sink 1 3))) false (omega arith)))
      (backed_off (begin_admit false (enter (enter (new_sink 1 3)))) (omega arith))

Reached-Bounded_example : Bounded 1 3 raced × Passes raced
unfolding new_sink
Reached-Bounded_example = Reached-Bounded 1 3 raced (omega arith) raced-Reached

abbrev inputs : ProxyInputs ℤ
inputs = record {
  gate_tick_p50_ns = pos 20;
  gate_tick_p95_ns = pos 21;
  gate_tick_max_ns = pos 25;
  gate_tick_samples = 100;
  callback_p50_ns = pos 2;
  callback_p95_ns = pos 4;
  host_load_1m = pos 300;
  host_load_5m = pos 250;
}

abbrev acks : List Ack
acks = (pos 10, pos 35) ∷ (pos 0, pos 60) ∷ (pos 90, pos 80) ∷ []

build_ping-note_all_example :
    (build_ping {M = ℕ} thousandths
      (note_all (record { last_rtt_ns = none }) acks)
      "session-1"
      (pos 100)
      inputs
      []).signals.control_rtt_ns
    ≡ last_round_trip (pos 0) acks
unfolding ◌-ℤ◌
build_ping-note_all_example =
    build_ping-note_all thousandths "session-1" (pos 100) inputs [] acks
      (omega arith, omega arith, (omega arith, omega arith, (omega arith, omega arith, tt)))

abbrev out_of_touch : OfflineBuffer (ClientMsg ℕ)
out_of_touch = (push (new 8) (ClientMsg.gate GateMsg.event 1)).0

-- The plane accepts acks only; an ack goes out, a still is withheld, and the third send fails.
abbrev polls : List (Poll ℕ)
polls =
    record { commands = ClientMsg.heartbeat 2 ∷ []; received = Received.nothing }
    ∷ record { commands = []; received = Received.registered ("waddle.v0.plane.acks" ∷ []) }
    ∷ record {
      commands =
          ClientMsg.observation Payload.still 3
          ∷ ClientMsg.gate GateMsg.ack 4
          ∷ ClientMsg.gate GateMsg.event 5
          ∷ [];
      received = Received.nothing;
    }
    ∷ []

out_of_touch-Kept : Kept out_of_touch.items
unfolding new push buffer_when_offline
out_of_touch-Kept = (refl, tt)

connect-Barred_example : Barred 0 (admitted false polls) (connect 3 false 0 out_of_touch polls)
connect-Barred_example = connect-Barred 3 false 0 out_of_touch polls out_of_touch-Kept

left_on_it :
    (connect 3 false 0 out_of_touch polls).out
    ≡ ClientMsg.register 0 ∷ ClientMsg.gate GateMsg.event 1 ∷ ClientMsg.gate GateMsg.ack 4 ∷ []
unfolding connect new push
left_on_it = refl

given_back :
    (connect 3 false 0 out_of_touch polls).buffer.items ≡ ClientMsg.gate GateMsg.event 5 ∷ []
unfolding connect new push
given_back = refl
