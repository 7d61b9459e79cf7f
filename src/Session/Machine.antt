-- ===== src/Session/Machine.antt =====
-- `Ctx::finish` and `step` of session.rs, and runs of the machine over a history of events.
use waddle_sdk.Prelude.{
  Bool, true, false, ◌&&◌, not, Option, none, some, List, [], ◌∷◌, if◌then◌else◌,
}
use waddle_sdk.Outcome.{Outcome, done, rejected, panicked, ◌>>=◌}
use waddle_sdk.Types.{GateMode, same_mode}
use waddle_sdk.Session.Effect.{Effect}
use waddle_sdk.Session.Event.{SessionEvent}
use waddle_sdk.Session.State.{SessionConfig, SessionFsm, Step, gate_plan_inputs}
use waddle_sdk.Session.Context.{Ctx, push}
use waddle_sdk.Session.Handlers.Episodes.{
  on_episode_open, on_reset_result, on_verification_result, on_start, on_gate_tick, on_terminate,
  on_judge_result, on_mark,
}
use waddle_sdk.Session.Handlers.Claims.{
  on_claim_requested, on_claim_granted, on_claim_released, on_clutch,
}
use waddle_sdk.Session.Handlers.Takeover.{
  on_engage, on_chunk_boundary_reached, on_release, on_retake, on_verb_result, on_stall_detected,
  on_ticks_resumed,
}
use waddle_sdk.Session.Handlers.Leases.{on_lease_token_minted, on_estop}
use waddle_sdk.Session.Handlers.Plane.{
  on_proxy_signals, on_heartbeat_ack, on_partition_start, on_partition_end,
}
use waddle_sdk.Session.Handlers.Windows.{
  on_timer_fired, on_dual_write, on_intervention_rejected, on_post_reset_result,
  on_reset_window_engage, on_reset_window_complete, on_agent_task_denied,
}

-- `effects.iter().rev().find_map(..)`: the mode of the last `SetGateMode`.
unfoldable pub last_mode : List Effect → Option GateMode
last_mode [] = none
last_mode (e ∷ es) =
    let rest = last_mode es in
    elim rest [
      | some mode ↦ some mode
      | none ↦ elim e [ Effect.set_gate_mode mode ↦ some mode | _ ↦ none ]
    ]

abbrev same_bool : Bool → Bool → Bool
same_bool true b = b
same_bool false b = not b

abbrev pub same_inputs : GateMode × Bool → GateMode × Bool → Bool
same_inputs (m, a) (n, b) = same_mode m n && same_bool a b

abbrev pub carries : Option GateMode → GateMode → Bool
carries none mode = false
carries (some m) mode = same_mode m mode

unfoldable pub finish : Ctx → Step
unfolding gate_plan_inputs push last_mode
finish c =
    if not (same_inputs (gate_plan_inputs c.s) c.plan_inputs_at_entry)
      && not (carries (last_mode c.effects) c.s.gate_mode)
    then record { next = c.s; effects = (push c (Effect.set_gate_mode c.s.gate_mode)).effects }
    else record { next = c.s; effects = c.effects }

-- The `match event` of `step`.
unfoldable pub handle : Ctx → SessionEvent → Outcome Ctx
handle c (SessionEvent.episode_open r at) = on_episode_open c r at
handle c (SessionEvent.reset_result result verified at) = on_reset_result c result verified at
handle c (SessionEvent.verification_result verified invalidated at) =
    on_verification_result c verified invalidated at
handle c (SessionEvent.start at) = on_start c at
handle c (SessionEvent.gate_tick at) = on_gate_tick c at
handle c (SessionEvent.claim_requested id source actor self_initiated at) =
    on_claim_requested c
      (record { id = id; source = source; actor = actor; self_initiated = self_initiated }) at
handle c (SessionEvent.claim_granted id source actor self_initiated at) =
    on_claim_granted c
      (record { id = id; source = source; actor = actor; self_initiated = self_initiated }) at
handle c (SessionEvent.claim_released id at) = on_claim_released c id at
handle c (SessionEvent.engage claim at) = on_engage c claim at
handle c (SessionEvent.chunk_boundary_reached at) = on_chunk_boundary_reached c at
handle c (SessionEvent.release claim at) = on_release c claim at
handle c (SessionEvent.retake claim initiator successor at) =
    on_retake c claim initiator successor at
handle c (SessionEvent.clutch engaged at) = on_clutch c engaged at
handle c (SessionEvent.verb_result verb result fault at) = on_verb_result c verb result fault at
handle c (SessionEvent.lease_token_minted minted at) = on_lease_token_minted c minted at
handle c (SessionEvent.estop at) = on_estop c at
handle c (SessionEvent.terminate outcome reason at) = on_terminate c outcome reason at
handle c (SessionEvent.judge_result judge_id passed at) = on_judge_result c judge_id passed at
handle c (SessionEvent.mark kind at) = on_mark c kind at
handle c (SessionEvent.proxy_signals sample at) = on_proxy_signals c sample at
handle c (SessionEvent.heartbeat_ack changes at) = on_heartbeat_ack c changes at
handle c (SessionEvent.partition_start at) = on_partition_start c at
handle c (SessionEvent.partition_end at) = on_partition_end c at
handle c (SessionEvent.timer_fired id at) = on_timer_fired c id at
handle c (SessionEvent.stall_detected at) = on_stall_detected c at
handle c (SessionEvent.ticks_resumed at) = on_ticks_resumed c at
handle c (SessionEvent.dual_write metric window_ns trace_ref at) =
    on_dual_write c metric window_ns trace_ref at
handle c (SessionEvent.intervention_rejected source reason at) =
    on_intervention_rejected c source reason at
handle c (SessionEvent.post_reset_result result detail at) = on_post_reset_result c result detail at
handle c (SessionEvent.reset_window_engage claim at) = on_reset_window_engage c claim at
handle c (SessionEvent.reset_window_complete claim result verified at) =
    on_reset_window_complete c claim result verified at
handle c (SessionEvent.agent_task_denied detail at) = on_agent_task_denied c detail at

-- The context in which `step` begins.
unfoldable pub enter : SessionConfig → SessionFsm → Ctx
enter cfg s = record { cfg = cfg; s = s; effects = []; plan_inputs_at_entry = gate_plan_inputs s }

unfoldable pub step : SessionConfig → SessionFsm → SessionEvent → Outcome Step
unfolding enter handle
step cfg s event = handle (enter cfg s) event >>= λ c. done (finish c)

-- A history as its caller runs it: a rejected event leaves the state as it was.
unfoldable pub run : SessionConfig → SessionFsm → List SessionEvent → Outcome SessionFsm
unfolding step
run cfg s [] = done s
run cfg s (event ∷ events) = elim (step cfg s event) [
  | done r ↦ run cfg r.next events
  | rejected reason ↦ run cfg s events
  | panicked m ↦ panicked m
]
