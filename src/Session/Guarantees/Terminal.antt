-- ===== src/Session/Guarantees/Terminal.antt =====
-- An ended episode stays ended: E12 of FSM.md, in session.rs.
use waddle_sdk.Prelude.{◌≡◌, sym, subst, List, [], ◌∷◌, Option, none, some, arith}
use waddle_sdk.Outcome.{Outcome, done, rejected, panicked, ◌>>=◌}
use waddle_sdk.Types.{TerminalOutcome}
use waddle_sdk.Session.Episode.{Phase, EpisodeState, ResetWindowState}
use waddle_sdk.Session.Effect.{TimerId, PendingLeaseOp}
use waddle_sdk.Session.Event.{SessionEvent}
use waddle_sdk.Session.State.{EngageStage, SessionConfig, SessionFsm, Step}
use waddle_sdk.Session.Context.{Ctx}
use waddle_sdk.Session.Handlers.Episodes.{
  on_reset_result, on_verification_result, on_start, on_gate_tick, on_terminate, on_judge_result,
  on_mark,
}
use waddle_sdk.Session.Handlers.Claims.{
  on_claim_requested, on_claim_granted, on_claim_released, on_clutch,
}
use waddle_sdk.Session.Handlers.Takeover.{
  on_engage, on_chunk_boundary_reached, on_release, on_retake, on_verb_result, on_stall_detected,
  on_ticks_resumed,
}
use waddle_sdk.Session.Handlers.Leases.{on_lease_token_minted, on_estop}
use waddle_sdk.Session.Handlers.Plane.{
  on_proxy_signals, on_heartbeat_ack, on_partition_start, on_partition_end,
}
use waddle_sdk.Session.Handlers.Windows.{
  on_timer_fired, on_dual_write, on_intervention_rejected, on_post_reset_result,
  on_reset_window_engage, on_reset_window_complete, on_agent_task_denied,
}
use waddle_sdk.Session.Machine.{handle, finish, step, enter, run}
use waddle_sdk.Session.Safety.Closing.{at_episode}
use waddle_sdk.Session.Guarantees.GatePlan.{finish_plan}

abbrev pub HasEnded : TerminalOutcome → Option EpisodeState → Type 0
HasEnded o none = ⊥
HasEnded o (some e) = (e.phase ≡ Phase.terminal o) × (e.reset_window ≡ none)

-- The episode has ended with outcome `o`, no window of it is left, and no lease operation and no
-- takeover is in flight.
abbrev pub IsEnded : TerminalOutcome → SessionFsm → Type 0
IsEnded o s = HasEnded o s.episode × (s.pending_lease ≡ none) × (s.engage_stage ≡ none)

abbrev Ends : TerminalOutcome → Outcome Ctx → Type 0
Ends o (done d) = IsEnded o d.s
Ends o (rejected reason) = Unit
Ends o (panicked m) = ⊥

abbrev parts :
    Ctx
    → EpisodeState
    → Phase
    → Option ResetWindowState
    → Option PendingLeaseOp
    → Option EngageStage
    → Ctx
parts c e p w q g = record c {
  s = record (c.s) {
    episode = some (record e { phase = p; reset_window = w });
    pending_lease = q;
    engage_stage = g;
  };
}

abbrev ended : Ctx → EpisodeState → TerminalOutcome → Ctx
ended c e o = parts c e (Phase.terminal o) none none none

-- The events after which an ended episode may be replaced.
abbrev pub Opens : SessionEvent → Type 0
Opens (SessionEvent.episode_open request at) = Unit
Opens _ = ⊥

module _ (c : Ctx) (e : EpisodeState) (o : TerminalOutcome) where
  ended_stays : (event : SessionEvent) → ¬ Opens event → Ends o (handle (ended c e o) event)
  unfolding handle on_reset_result on_verification_result on_start on_gate_tick on_terminate
      on_judge_result on_mark on_claim_requested on_claim_granted on_claim_released on_clutch
      on_engage on_chunk_boundary_reached on_release on_retake on_verb_result on_stall_detected
      on_ticks_resumed on_lease_token_minted on_estop on_proxy_signals on_heartbeat_ack
      on_partition_start on_partition_end on_timer_fired on_dual_write on_intervention_rejected
      on_post_reset_result on_reset_window_engage on_reset_window_complete on_agent_task_denied
  ended_stays (SessionEvent.episode_open request at) n = absurd (n tt)
  ended_stays (SessionEvent.reset_result ok verified at) n = ground arith
  ended_stays (SessionEvent.verification_result verified invalidated at) n = ground arith
  ended_stays (SessionEvent.start at) n = ground arith
  ended_stays (SessionEvent.gate_tick at) n = ground arith
  ended_stays (SessionEvent.claim_requested id source actor self_initiated at) n = ground arith
  ended_stays (SessionEvent.claim_granted id source actor self_initiated at) n = ground arith
  ended_stays (SessionEvent.claim_released id at) n = ground arith
  ended_stays (SessionEvent.engage claim at) n = ground arith
  ended_stays (SessionEvent.chunk_boundary_reached at) n = ground arith
  ended_stays (SessionEvent.release claim at) n = ground arith
  ended_stays (SessionEvent.retake claim initiator successor at) n = ground arith
  ended_stays (SessionEvent.clutch engaged at) n = ground arith
  ended_stays (SessionEvent.verb_result verb ok fault at) n = ground arith
  ended_stays (SessionEvent.lease_token_minted minted at) n = ground arith
  ended_stays (SessionEvent.estop at) n = ground arith
  ended_stays (SessionEvent.terminate outcome reason at) n = ground arith
  ended_stays (SessionEvent.judge_result judge_id passed at) n = ground arith
  ended_stays (SessionEvent.mark kind at) n = ground arith
  ended_stays (SessionEvent.proxy_signals sample at) n = ground arith
  ended_stays (SessionEvent.heartbeat_ack changes at) n = ground arith
  ended_stays (SessionEvent.partition_start at) n = ground arith
  ended_stays (SessionEvent.partition_end at) n = ground arith
  ended_stays (SessionEvent.timer_fired TimerId.engage_timeout at) n = ground arith
  ended_stays (SessionEvent.timer_fired TimerId.chunk_boundary_cap at) n = ground arith
  ended_stays (SessionEvent.timer_fired TimerId.heartbeat_stale at) n = ground arith
  ended_stays (SessionEvent.timer_fired TimerId.agent_invite_timeout at) n = ground arith
  ended_stays (SessionEvent.timer_fired TimerId.reset_window_timeout at) n = ground arith
  ended_stays (SessionEvent.stall_detected at) n = ground arith
  ended_stays (SessionEvent.ticks_resumed at) n = ground arith
  ended_stays (SessionEvent.dual_write metric window_ns trace_ref at) n = ground arith
  ended_stays (SessionEvent.intervention_rejected source reason at) n = ground arith
  ended_stays (SessionEvent.post_reset_result ok detail at) n = ground arith
  ended_stays (SessionEvent.reset_window_engage claim at) n = ground arith
  ended_stays (SessionEvent.reset_window_complete claim ok verified at) n = ground arith
  ended_stays (SessionEvent.agent_task_denied detail at) n = ground arith

ended_by_parts :
    (c : Ctx) (e : EpisodeState) (o : TerminalOutcome) (p : Phase) (w : Option ResetWindowState)
    (q : Option PendingLeaseOp) (g : Option EngageStage) (event : SessionEvent)
    → ¬ Opens event
    → p ≡ Phase.terminal o
    → w ≡ none
    → q ≡ none
    → g ≡ none
    → Ends o (handle (parts c e p w q g) event)
ended_by_parts c e o p w q g event n hp hw hq hg =
    subst (λ x. Ends o (handle (parts c e x w q g) event)) (sym hp)
      (subst (λ x. Ends o (handle (parts c e (Phase.terminal o) x q g) event)) (sym hw)
        (subst (λ x. Ends o (handle (parts c e (Phase.terminal o) none x g) event)) (sym hq)
          (subst (λ x. Ends o (handle (parts c e (Phase.terminal o) none none x) event)) (sym hg)
            (ended_stays c e o event n))))

ended_by_option :
    (c : Ctx) (x : Option EpisodeState) (o : TerminalOutcome) (event : SessionEvent)
    → ¬ Opens event
    → IsEnded o (at_episode c x).s
    → Ends o (handle (at_episode c x) event)
ended_by_option c none o event n h = absurd h.0
ended_by_option c (some e) o event n h =
    ended_by_parts c e o e.phase e.reset_window c.s.pending_lease c.s.engage_stage event n h.0.0
      h.0.1 h.1 h.2

abbrev pub StepEnds : TerminalOutcome → Outcome Step → Type 0
StepEnds o (done r) = IsEnded o r.next
StepEnds o (rejected reason) = Unit
StepEnds o (panicked m) = ⊥

finished :
    (o : TerminalOutcome) (r : Outcome Ctx) → Ends o r → StepEnds o (r >>= λ c. done (finish c))
finished o (done c) h = subst (IsEnded o) (sym (finish_plan c).0) h
finished o (rejected reason) h = tt
finished o (panicked m) h = absurd h

step-IsEnded :
    (cfg : SessionConfig) (s : SessionFsm) (event : SessionEvent) (o : TerminalOutcome)
    → IsEnded o s
    → ¬ Opens event
    → StepEnds o (step cfg s event)
unfolding step enter
step-IsEnded cfg s event o h n = finished o _ (ended_by_option (enter cfg s) s.episode o event n h)

abbrev pub NoneOpens : List SessionEvent → Type 0
NoneOpens [] = Unit
NoneOpens (event ∷ events) = (¬ Opens event) × NoneOpens events

abbrev pub RunEnds : TerminalOutcome → Outcome SessionFsm → Type 0
RunEnds o (done s) = IsEnded o s
RunEnds o _ = ⊥

abbrev rest : SessionConfig → SessionFsm → List SessionEvent → Outcome Step → Outcome SessionFsm
rest cfg s events (done r) = run cfg r.next events
rest cfg s events (rejected reason) = run cfg s events
rest cfg s events (panicked m) = panicked m

rest_ends :
    (cfg : SessionConfig) (s : SessionFsm) (events : List SessionEvent) (o : TerminalOutcome)
    (r : Outcome Step)
    → IsEnded o s
    → StepEnds o r
    → ((x : SessionFsm) → IsEnded o x → RunEnds o (run cfg x events))
    → RunEnds o (rest cfg s events r)
rest_ends cfg s events o (done r) h k f = f r.next k
rest_ends cfg s events o (rejected reason) h k f = f s h
rest_ends cfg s events o (panicked m) h k f = absurd k

-- An ended episode of which no window is left open, with no lease operation and no takeover in
-- flight, keeps its outcome through every history in which no episode is opened: no such history
-- panics, and after it the episode has ended with the same outcome and there is still no window, no
-- lease operation and no takeover.
pub run-IsEnded :
    (cfg : SessionConfig) (s : SessionFsm) (events : List SessionEvent) (o : TerminalOutcome)
    → IsEnded o s
    → NoneOpens events
    → RunEnds o (run cfg s events)
unfolding run
run-IsEnded cfg s [] o h n = h
run-IsEnded cfg s (event ∷ events) o h n =
    rest_ends cfg s events o (step cfg s event) h (step-IsEnded cfg s event o h n.0)
      λ x k. run-IsEnded cfg x events o k n.1
