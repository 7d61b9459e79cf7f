-- ===== src/Session/Safety/Steps.antt =====
-- Every step of session.rs keeps the invariant, and no history of events makes the machine panic.
use waddle_sdk.Prelude.{◌≡◌, true, sym, subst, List, [], ◌∷◌, is_some, arith}
use waddle_sdk.Outcome.{Outcome, done, rejected, panicked, ◌>>=◌}
use waddle_sdk.Types.Time.{MonoNs}
use waddle_sdk.Session.Effect.{TimerId}
use waddle_sdk.Session.Event.{SessionEvent}
use waddle_sdk.Session.State.{SessionConfig, SessionFsm, Step, new}
use waddle_sdk.Session.Context.{Ctx}
use waddle_sdk.Session.Machine.{handle, finish, step, run, enter}
use waddle_sdk.Session.Safety.Invariant.{Inv, Keeps}
use waddle_sdk.Session.Safety.Episodes.{
  on_episode_open-Keeps, on_verification_result-Keeps, on_reset_result-Keeps, on_start-Keeps,
  on_gate_tick-Keeps, on_terminate-Keeps, on_judge_result-Keeps, on_mark-Keeps,
}
use waddle_sdk.Session.Safety.Takeover.{
  on_claim_requested-Keeps, on_claim_granted-Keeps, on_claim_released-Keeps,
  on_chunk_boundary_reached-Keeps, on_verb_result-Keeps, on_stall_detected-Keeps,
  on_ticks_resumed-Keeps, on_engage-Keeps, on_release-Keeps,
}
use waddle_sdk.Session.Safety.Claims.{on_retake-Keeps, on_clutch-Keeps}
use waddle_sdk.Session.Safety.Leases.{on_estop-Keeps}
use waddle_sdk.Session.Safety.Minting.{on_lease_token_minted-Keeps}
use waddle_sdk.Session.Safety.Plane.{
  on_proxy_signals-Keeps, on_heartbeat_ack-Keeps, on_partition_start-Keeps, on_partition_end-Keeps,
}
use waddle_sdk.Session.Safety.Timers.{
  on_timer_fired-Keeps, on_dual_write-Keeps, on_intervention_rejected-Keeps,
  on_post_reset_result-Keeps, on_reset_window_engage-Keeps, on_reset_window_complete-Keeps,
  on_agent_task_denied-Keeps,
}

-- The event may come in state `s`: a reset window's timer fires only once an episode was opened.
abbrev pub Timely : SessionFsm → SessionEvent → Type 0
Timely s (SessionEvent.timer_fired TimerId.reset_window_timeout at) = is_some s.episode ≡ true
Timely s _ = Unit

module _ (c : Ctx) (v : Inv c.s) where
  timer-Keeps :
      (id : TimerId) (at : MonoNs)
      → Timely c.s (SessionEvent.timer_fired id at)
      → Keeps (handle c (SessionEvent.timer_fired id at))
  unfolding handle
  timer-Keeps TimerId.engage_timeout at t =
      on_timer_fired-Keeps c c.s.episode TimerId.engage_timeout at tt v
  timer-Keeps TimerId.chunk_boundary_cap at t =
      on_timer_fired-Keeps c c.s.episode TimerId.chunk_boundary_cap at tt v
  timer-Keeps TimerId.heartbeat_stale at t =
      on_timer_fired-Keeps c c.s.episode TimerId.heartbeat_stale at tt v
  timer-Keeps TimerId.agent_invite_timeout at t =
      on_timer_fired-Keeps c c.s.episode TimerId.agent_invite_timeout at tt v
  timer-Keeps TimerId.reset_window_timeout at t =
      on_timer_fired-Keeps c c.s.episode TimerId.reset_window_timeout at t v

  pub handle-Keeps : (event : SessionEvent) → Timely c.s event → Keeps (handle c event)
  unfolding handle
  handle-Keeps (SessionEvent.episode_open r at) t = on_episode_open-Keeps c c.s.episode r at v
  handle-Keeps (SessionEvent.reset_result result verified at) t =
      on_reset_result-Keeps c c.s.episode result verified at v
  handle-Keeps (SessionEvent.verification_result verified invalidated at) t =
      on_verification_result-Keeps c c.s.episode verified invalidated at v
  handle-Keeps (SessionEvent.start at) t = on_start-Keeps c c.s.episode at v
  handle-Keeps (SessionEvent.gate_tick at) t = on_gate_tick-Keeps c c.s.episode at v
  handle-Keeps (SessionEvent.claim_requested id source actor self_initiated at) t =
      on_claim_requested-Keeps c c.s.episode _ at v
  handle-Keeps (SessionEvent.claim_granted id source actor self_initiated at) t =
      on_claim_granted-Keeps c c.s.episode _ at v
  handle-Keeps (SessionEvent.claim_released id at) t = on_claim_released-Keeps c c.s.episode id at v
  handle-Keeps (SessionEvent.engage claim at) t = on_engage-Keeps c c.s.episode claim at v
  handle-Keeps (SessionEvent.chunk_boundary_reached at) t =
      on_chunk_boundary_reached-Keeps c c.s.episode at v
  handle-Keeps (SessionEvent.release claim at) t = on_release-Keeps c c.s.episode claim at v
  handle-Keeps (SessionEvent.retake claim initiator successor at) t =
      on_retake-Keeps c c.s.episode claim initiator successor at v
  handle-Keeps (SessionEvent.clutch engaged at) t = on_clutch-Keeps c c.s.episode engaged at v
  handle-Keeps (SessionEvent.verb_result verb result fault at) t =
      on_verb_result-Keeps c c.s.episode verb result fault at v
  handle-Keeps (SessionEvent.lease_token_minted minted at) t =
      on_lease_token_minted-Keeps c minted at v
  handle-Keeps (SessionEvent.estop at) t = on_estop-Keeps c at v
  handle-Keeps (SessionEvent.terminate outcome reason at) t =
      on_terminate-Keeps c c.s.episode outcome reason at v
  handle-Keeps (SessionEvent.judge_result judge_id passed at) t =
      on_judge_result-Keeps c c.s.episode judge_id passed at v
  handle-Keeps (SessionEvent.mark kind at) t = on_mark-Keeps c c.s.episode kind at v
  handle-Keeps (SessionEvent.proxy_signals sample at) t = on_proxy_signals-Keeps c at sample v
  handle-Keeps (SessionEvent.heartbeat_ack changes at) t = on_heartbeat_ack-Keeps c at changes v
  handle-Keeps (SessionEvent.partition_start at) t = on_partition_start-Keeps c at v
  handle-Keeps (SessionEvent.partition_end at) t = on_partition_end-Keeps c at v
  handle-Keeps (SessionEvent.timer_fired id at) t = timer-Keeps id at t
  handle-Keeps (SessionEvent.stall_detected at) t = on_stall_detected-Keeps c c.s.episode at v
  handle-Keeps (SessionEvent.ticks_resumed at) t = on_ticks_resumed-Keeps c c.s.episode at v
  handle-Keeps (SessionEvent.dual_write metric window_ns trace_ref at) t =
      on_dual_write-Keeps c c.s.episode metric window_ns trace_ref at v
  handle-Keeps (SessionEvent.intervention_rejected source reason at) t =
      on_intervention_rejected-Keeps c c.s.episode source reason at v
  handle-Keeps (SessionEvent.post_reset_result result detail at) t =
      on_post_reset_result-Keeps c c.s.episode result detail at v
  handle-Keeps (SessionEvent.reset_window_engage claim at) t =
      on_reset_window_engage-Keeps c c.s.episode claim at v
  handle-Keeps (SessionEvent.reset_window_complete claim result verified at) t =
      on_reset_window_complete-Keeps c c.s.episode claim result verified at v
  handle-Keeps (SessionEvent.agent_task_denied detail at) t =
      on_agent_task_denied-Keeps c c.s.episode detail at v

-- `finish` changes the effects only.
finish_next : (c : Ctx) → (finish c).next ≡ c.s
unfolding finish
finish_next c = ground arith

-- A step that does not panic and that, where it returns, leaves the invariant.
abbrev pub StepKeeps : Outcome Step → Type 0
StepKeeps (done r) = Inv r.next
StepKeeps (rejected reason) = Unit
StepKeeps (panicked m) = ⊥

finished-Keeps : (r : Outcome Ctx) → Keeps r → StepKeeps (r >>= λ c. done (finish c))
finished-Keeps (done c) v = subst Inv (sym (finish_next c)) v
finished-Keeps (rejected reason) v = tt
finished-Keeps (panicked m) v = absurd v

-- In a state of the invariant no event makes the machine panic, whatever the configuration, as
-- long as a reset window's timer fires only once an episode was opened; and where the event is
-- accepted, the next state satisfies the invariant again.
pub step-Inv :
    (cfg : SessionConfig) (s : SessionFsm) (event : SessionEvent)
    → Inv s
    → Timely s event
    → StepKeeps (step cfg s event)
unfolding step enter
step-Inv cfg s event v t = finished-Keeps _ (handle-Keeps (enter cfg s) v event t)

pub new-Inv : (cfg : SessionConfig) → Inv (new cfg)
unfolding new
new-Inv cfg = ground arith

-- Every event of the history comes in time, in the state that the events before it left.
unfoldable pub TimelyRun : SessionConfig → SessionFsm → List SessionEvent → Type 0
unfolding step
TimelyRun cfg s [] = Unit
TimelyRun cfg s (event ∷ events) = Timely s event × elim (step cfg s event) [
  | done r ↦ TimelyRun cfg r.next events
  | rejected reason ↦ TimelyRun cfg s events
  | panicked m ↦ Unit
]

abbrev pub RunKeeps : Outcome SessionFsm → Type 0
RunKeeps (done s) = Inv s
RunKeeps _ = ⊥

-- The rest of the history, whichever way the step went.
abbrev RestTimely : SessionConfig → SessionFsm → List SessionEvent → Outcome Step → Type 0
RestTimely cfg s events (done r) = TimelyRun cfg r.next events
RestTimely cfg s events (rejected reason) = TimelyRun cfg s events
RestTimely cfg s events (panicked m) = Unit

abbrev rest : SessionConfig → SessionFsm → List SessionEvent → Outcome Step → Outcome SessionFsm
rest cfg s events (done r) = run cfg r.next events
rest cfg s events (rejected reason) = run cfg s events
rest cfg s events (panicked m) = panicked m

rest-Keeps :
    (cfg : SessionConfig) (s : SessionFsm) (events : List SessionEvent) (r : Outcome Step)
    → Inv s
    → StepKeeps r
    → RestTimely cfg s events r
    → ((n : SessionFsm) → Inv n → TimelyRun cfg n events → RunKeeps (run cfg n events))
    → RunKeeps (rest cfg s events r)
rest-Keeps cfg s events (done r) v k t h = h r.next k t
rest-Keeps cfg s events (rejected reason) v k t h = h s v t
rest-Keeps cfg s events (panicked m) v k t h = absurd k

pub run-Inv :
    (cfg : SessionConfig) (s : SessionFsm) (events : List SessionEvent)
    → Inv s
    → TimelyRun cfg s events
    → RunKeeps (run cfg s events)
unfolding run TimelyRun
run-Inv cfg s [] v t = v
run-Inv cfg s (event ∷ events) v t =
    rest-Keeps cfg s events (step cfg s event) v (step-Inv cfg s event v t.0) t.1
      λ n w u. run-Inv cfg n events w u

abbrev pub NotPanicked : {A : Type 0} → Outcome A → Type 0
NotPanicked (panicked m) = ⊥
NotPanicked _ = Unit

RunKeeps-NotPanicked : (r : Outcome SessionFsm) → RunKeeps r → NotPanicked r
RunKeeps-NotPanicked (done s) k = tt
RunKeeps-NotPanicked (rejected reason) k = tt
RunKeeps-NotPanicked (panicked m) k = k

-- From a new session no history of events makes the machine panic, as long as a reset window's
-- timer fires only once an episode was opened.
pub run-NotPanicked :
    (cfg : SessionConfig) (events : List SessionEvent)
    → TimelyRun cfg (new cfg) events
    → NotPanicked (run cfg (new cfg) events)
run-NotPanicked cfg events t = RunKeeps-NotPanicked _ (run-Inv cfg (new cfg) events (new-Inv cfg) t)
