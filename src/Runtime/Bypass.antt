-- ===== src/Runtime/Bypass.antt =====
-- The bypass pump, spawn_bypass_pump and dispatch_due_intervention of pumps.rs in
-- waddle-core/crates/waddle-runtime/src: one round of its thread over the status, the clock and the
-- last tick that the round reads. The channels are lists; sleeping and the shutdown are left out.
pub mod Reference
pub mod Audit
mod Examples
use waddle_sdk.Prelude.{
  ℕ, ◌+◌, Bool, true, false, Option, none, some, List, [], ◌∷◌, ◌++◌, String, if◌then◌else◌,
}
use waddle_sdk.Prelude.Int.{ℤ, pos, ltb_ℤ}
use waddle_sdk.Outcome.{Outcome, done, ◌>>=◌}
use waddle_sdk.Types.{GateMode}
use waddle_sdk.Types.Time.{MonoNs, Stamp}
use waddle_sdk.Types.Wrapping.{sub_i64}
use waddle_sdk.Types.Actor.{ProvenanceTag, policy_tag}
use waddle_sdk.Session.Event.{SessionEvent}
use waddle_sdk.Gate.Action.{OwnedAction}
use waddle_sdk.Gate.Jitter.{u64}
use waddle_sdk.Gate.Tick.{StreamIntake, stream_pop_due}
use waddle_sdk.Runtime.Acks.{Injected, from_event}
use waddle_sdk.Runtime.Rows.{DispatchedAction}
use waddle_sdk.Runtime.Mirror.{Status}

abbrev pub stall_threshold_ns : ℤ
stall_threshold_ns = pos 500000000

abbrev pub bypass_pump_source : String
bypass_pump_source = "waddle_sdk.bypass-pump"

-- The chunk of one step that a SEND request carries.
pub record SendChunk (F : Type 0) : Type 0 where
  pub step : OwnedAction F
  pub offset_ns : ℤ
  pub dims : ℕ
  pub horizon_ns : ℤ
  pub t_emitted_ns : MonoNs
  pub t_obs_ns : MonoNs
  pub seq : ℕ
  pub source : String
  pub provenance : ProvenanceTag

-- The pump's counter, with the gate's stream and the channels to the recorder, to the verb dispatch
-- and to the reducer.
pub record BypassPump (F : Type 0) : Type 0 where
  pub stream : StreamIntake F
  pub seq : ℕ
  pub recorder : List (DispatchedAction F)
  pub sends : List (SendChunk F)
  pub inject : List Injected

-- What a round reads.
pub record Round : Type 0 where
  pub status : Status
  pub stamp : Stamp
  pub last_tick : Option MonoNs

abbrev pub or_policy : Option ProvenanceTag → ProvenanceTag
or_policy none = policy_tag
or_policy (some tag) = tag

module _ {F : Type 0} where
  abbrev pub to_send : ℕ → DispatchedAction F → SendChunk F
  to_send dims d = record {
    step = d.action;
    offset_ns = pos 0;
    dims = dims;
    horizon_ns = pos 0;
    t_emitted_ns = d.stamp.mono;
    t_obs_ns = d.stamp.mono;
    seq = d.seq;
    source = bypass_pump_source;
    provenance = d.provenance;
  }

  abbrev pub row_of : ℕ → Round → OwnedAction F → DispatchedAction F
  row_of seq r action = record {
    stamp = r.stamp;
    seq = seq;
    provenance = or_policy r.status.provenance;
    action = action;
  }

  -- What a pop of the stream becomes: the row first, then the request.
  unfoldable pub drive :
      ℕ → Round → BypassPump F → StreamIntake F × Option (OwnedAction F) → BypassPump F
  drive dims r p (stream, none) = record p { stream = stream }
  drive dims r p (stream, some action) =
      let seq = u64 (p.seq + 1) in
      let row = row_of seq r action in
      record p {
        stream = stream;
        seq = seq;
        recorder = p.recorder ++ row ∷ [];
        sends = p.sends ++ to_send dims row ∷ [];
      }

  -- `dispatch_due_intervention`.
  unfoldable pub dispatch_due_intervention : ℕ → Round → BypassPump F → Outcome (BypassPump F)
  unfolding stream_pop_due drive
  dispatch_due_intervention dims r p =
      stream_pop_due p.stream r.stamp.mono >>= (λ popped. done (drive dims r p popped))

  abbrev pub tell : BypassPump F → SessionEvent → BypassPump F
  unfolding from_event
  tell p e = record p { inject = p.inject ++ from_event e ∷ [] }

-- No tick, or none since the threshold.
unfoldable pub is_stalled : MonoNs → Option MonoNs → Bool
unfolding sub_i64
is_stalled now none = true
is_stalled now (some last_tick) = ltb_ℤ stall_threshold_ns (sub_i64 now last_tick)

module _ {F : Type 0} where
  -- The arms of the match on the gate mode.
  unfoldable pub supervise :
      ℕ
      → Round
      → BypassPump F
      → (mode : Option GateMode) (claim_active stalled : Bool) → Outcome (BypassPump F)
  unfolding dispatch_due_intervention from_event
  supervise dims r p (some GateMode.intervention) true true =
      done (tell p (SessionEvent.stall_detected r.stamp.mono))
  supervise dims r p (some GateMode.bypass) claim_active false =
      done (tell p (SessionEvent.ticks_resumed r.stamp.mono))
  supervise dims r p (some GateMode.bypass) claim_active true = dispatch_due_intervention dims r p
  supervise dims r p (some GateMode.reset) true stalled = dispatch_due_intervention dims r p
  supervise dims r p _ _ _ = done p

  -- A round of the thread.
  unfoldable pub bypass_round : ℕ → BypassPump F → Round → Outcome (BypassPump F)
  unfolding supervise is_stalled
  bypass_round dims p r =
      supervise dims r p r.status.gate_mode r.status.claim_active
        (is_stalled r.stamp.mono r.last_tick)

  unfoldable pub run_bypass : ℕ → BypassPump F → List Round → Outcome (BypassPump F)
  unfolding bypass_round
  run_bypass dims p [] = done p
  run_bypass dims p (r ∷ rs) = bypass_round dims p r >>= (λ q. run_bypass dims q rs)
