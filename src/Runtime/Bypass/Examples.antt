-- ===== src/Runtime/Bypass/Examples.antt =====
-- The bypass pump of pumps.rs on concrete rounds: a stalled loop, then ticks again.
use waddle_sdk.Prelude.{◌≡◌, refl, ℕ, false, none, some, List, [], ◌∷◌, length}
use waddle_sdk.Prelude.Int.{ℤ, pos, ◌-ℤ◌, ◌+ℤ◌}
use waddle_sdk.Outcome.{Outcome, done}
use waddle_sdk.Types.{GateMode}
use waddle_sdk.Types.Time.{MonoNs}
use waddle_sdk.Types.Wrapping.{add_i64}
use waddle_sdk.Types.Chunking.{ReplanPolicy}
use waddle_sdk.Gate.Action.{StreamChannel, TimedAction}
use waddle_sdk.Gate.Jitter.{new}
use waddle_sdk.Runtime.Mirror.{Status}
use waddle_sdk.Runtime.Bypass.{BypassPump, Round, run_bypass}
use waddle_sdk.Runtime.Bypass.Reference.{Audited, Returns}
use waddle_sdk.Runtime.Bypass.Audit.{run_bypass-Audited}

abbrev status : Status
status = record {
  episode_id = some "e1";
  episode_state = none;
  gate_mode = some GateMode.bypass;
  claim_active = false;
  active_claim_id = none;
  claim_generation = 1;
  provenance = none;
  outcome = none;
  pinned_outcome = none;
  post_reset_failed = false;
  agent_invited = false;
  agent_engaged = false;
  agent_invite_aborted = false;
  plane_connected = false;
}

abbrev arrival : TimedAction ℤ
arrival = record {
  received = pos 10;
  seq = 1;
  channel = StreamChannel.teleop;
  action = record {
    values = pos 4 ∷ [];
    velocity_feedforward = none;
    gripper = none;
    part = some "left";
  };
  chunk = none;
}

abbrev bypass_pump : BypassPump ℤ
bypass_pump = record {
  stream = record { rx = arrival ∷ []; jitter = new (pos 20) ReplanPolicy.immediate };
  seq = 8;
  recorder = [];
  sends = [];
  inject = [];
}

abbrev round_at : MonoNs → MonoNs → Round
round_at now last_tick = record {
  status = status;
  stamp = record { mono = now; epoch = pos 0 };
  last_tick = some last_tick;
}

-- The second round finds nothing due, and the third a tick.
abbrev rounds : List Round
rounds =
    round_at (pos 600000000) (pos 5)
    ∷ round_at (pos 600000002) (pos 5)
    ∷ round_at (pos 600000004) (pos 600000003)
    ∷ []

run_bypass-Audited_example :
    Returns (Audited 1 bypass_pump rounds) (run_bypass 1 bypass_pump rounds)
run_bypass-Audited_example = run_bypass-Audited 1 bypass_pump rounds

abbrev numbers : Outcome (BypassPump ℤ) → List ℕ
numbers (done p) = p.seq ∷ length p.sends ∷ length p.inject ∷ []
numbers _ = []

sent_once : numbers (run_bypass 1 bypass_pump rounds) ≡ 9 ∷ 1 ∷ 1 ∷ []
unfolding run_bypass new ◌-ℤ◌ ◌+ℤ◌ add_i64
sent_once = refl
