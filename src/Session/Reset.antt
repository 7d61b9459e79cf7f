-- ===== src/Session/Reset.antt =====
-- Post-reset, remote reset windows and reset results: the methods of `Ctx` in session.rs.
use waddle_sdk.Prelude.{Bool, true, false, ◌&&◌, not, Option, none, some, String, if◌then◌else◌}
use waddle_sdk.Outcome.{Outcome, done, expect, ◌>>=◌}
use waddle_sdk.Types.Time.{MonoNs, saturating_add}
use waddle_sdk.Types.{TerminalOutcome, GateMode, same_mode, ResetVerificationMode, ResetKind}
use waddle_sdk.Lease.{holder}
use waddle_sdk.Session.Episode.{Phase, WindowSpec, ResetWindowState, client}
use waddle_sdk.Session.Emission.{Body, FaultKind, ResetWindowEventKind, event_of}
use waddle_sdk.Session.Effect.{
  TimerId, LeaseOpKind, HandbackThen, AfterLease, PendingLeaseOp, Effect,
}
use waddle_sdk.Session.Context.{
  Ctx, push, emit, episode, update_episode, set_gate, transition, take_claim, close_run,
  enter_terminal,
}

-- E19.
unfoldable pub open_reset_window : Ctx → MonoNs → ResetKind → WindowSpec → Outcome Ctx
unfolding episode update_episode emit push event_of
open_reset_window c at kind spec = do
  c1 ← update_episode c (λ e. record e {
    reset_window =
        some
          (record { kind = kind; expected = spec.expected; engaged = false; prompt = spec.prompt });
  })
  e ← episode c1
  let c2 = emit c1 (
      event_of at (some e.id)
        (Body.reset_window ResetWindowEventKind.opened kind spec.prompt spec.expected "" none))
  done (push c2 (Effect.arm_timer TimerId.reset_window_timeout (saturating_add at spec.timeout_ns)))

-- The declared post-reset pipeline: a remote window, or a hook.
unfoldable pub engage_post_reset : Ctx → MonoNs → Outcome Ctx
unfolding episode open_reset_window push
engage_post_reset c at = do
  e ← episode c
  elim e.post_window [
    | some spec ↦ open_reset_window c at ResetKind.post spec
    | none ↦ done (push c (Effect.run_post_reset e.id))
  ]

-- E14.
unfoldable pub enter_post_reset : Ctx → MonoNs → TerminalOutcome → String → Outcome Ctx
unfolding update_episode close_run engage_post_reset
enter_post_reset c at outcome reason = do
  c1 ← update_episode c (λ e. record e { pinned_outcome = some outcome })
  c2 ← close_run c1 at Phase.post_reset reason (some outcome) true
  engage_post_reset c2 at

abbrev pub in_running_or_intervention : Phase → Bool
in_running_or_intervention Phase.running = true
in_running_or_intervention (Phase.intervention p) = true
in_running_or_intervention _ = false

-- The E10 trigger set, with its detour to POST_RESET.
unfoldable pub request_terminal : Ctx → MonoNs → TerminalOutcome → String → Outcome Ctx
unfolding episode enter_post_reset enter_terminal
request_terminal c at outcome reason = do
  e ← episode c
  if e.post_reset_declared && in_running_or_intervention e.phase
      then enter_post_reset c at outcome reason
      else enter_terminal c at outcome reason true

-- Ask for a token for `op`; `next` applies when it arrives.
unfoldable pub mint : Ctx → PendingLeaseOp → Ctx
unfolding push
mint c pending =
    push (record c { s = record (c.s) { pending_lease = some pending } })
      (Effect.mint_lease_token pending)

-- Route the lease to `to`: a handoff from its holder, or an acquire.
unfoldable pub route_op : Ctx → String → LeaseOpKind
unfolding holder
route_op c to = elim (holder c.s.lease) [
  | some (from, _) ↦ LeaseOpKind.handoff from to
  | none ↦ LeaseOpKind.acquire to
]

-- E20.
unfoldable pub begin_reset_engage : Ctx → Outcome Ctx
unfolding client route_op mint
begin_reset_engage c = do
  k ← expect c.s.claim "reset claim held"
  done (mint c (record { op = route_op c (client k); next = AfterLease.reset_engage_complete }))

-- E15 and E16.
unfoldable pub apply_post_reset_result : Ctx → MonoNs → Bool → String → Outcome Ctx
unfolding episode update_episode emit push event_of close_run
apply_post_reset_result c at result detail = do
  e ← episode c
  pinned ← expect e.pinned_outcome "pinned_outcome set at E14"
  if result
      then close_run (emit c (event_of at (some e.id) (Body.post_reset true detail pinned))) at
          (Phase.terminal pinned) "post-reset complete" (some pinned) true
      else do
        c1 ← update_episode c (λ e1. record e1 { post_reset_failed = true })
        let c2 = push c1 (Effect.set_post_reset_failed e.id)
        let c3 = emit c2 (event_of at (some e.id) (Body.post_reset false detail pinned))
        let c4 = emit c3 (
            event_of at (some e.id) (
              Body.fault FaultKind.precondition_fail "post-reset"
                "post-reset cleanup failed; pinned outcome stands"))
        close_run c4 at (Phase.terminal pinned) "post-reset failed" (some pinned) true

-- E2 to E4, by the verification mode.
unfoldable pub enter_ready : Ctx → MonoNs → ResetVerificationMode → Outcome Ctx
unfolding episode update_episode transition
enter_ready c at ResetVerificationMode.blocking = do
  e ← episode c
  if e.verified then transition c at Phase.ready "reset verified" none else done c
enter_ready c at ResetVerificationMode.optimistic_async = do
  c1 ← update_episode c (λ e. record e { optimistic_entry = not e.verified })
  transition c1 at Phase.ready "optimistic entry" none

-- The inline verification, where the pipeline ran one.
unfoldable pub note_verification : Ctx → MonoNs → ResetVerificationMode → Option Bool → Outcome Ctx
unfolding episode update_episode emit event_of
note_verification c at mode none = done c
note_verification c at mode (some v) = do
  e ← episode c
  let c1 = emit c (event_of at (some e.id) (Body.reset_verification mode v false))
  if v then update_episode c1 (λ e1. record e1 { verified = true }) else done c1

-- E2 to E5.
unfoldable pub apply_reset_result : Ctx → MonoNs → Bool → Option Bool → Outcome Ctx
unfolding episode update_episode emit event_of enter_terminal note_verification enter_ready
apply_reset_result c at result verified =
    if result
    then (do
      c1 ← update_episode c (λ e. record e { reset_ok = true })
      e ← episode c1
      c2 ← note_verification c1 at e.verification verified
      enter_ready c2 at e.verification)
    else do
      e ← episode c
      let c1 = emit c (
          event_of at (some e.id) (
            Body.fault FaultKind.precondition_fail "reset-pipeline"
              "reset failed; strategies exhausted"))
      enter_terminal c1 at TerminalOutcome.abort "reset failed" true

abbrev pub window_kind : Option ResetWindowState → Option ResetKind
window_kind none = none
window_kind (some w) = some w.kind

-- E22, by the kind of the window that timed out.
unfoldable pub close_timed_out : Ctx → MonoNs → Option ResetKind → Outcome Ctx
unfolding episode update_episode emit push event_of close_run enter_terminal
close_timed_out c at kind = elim kind [
  | some ResetKind.post ↦ do
    e ← episode c
    pinned ← expect e.pinned_outcome "pinned_outcome set at E14"
    c1 ← update_episode c (λ e1. record e1 { post_reset_failed = true })
    let c2 = push c1 (Effect.set_post_reset_failed e.id)
    let c3 = emit c2 (
        event_of at (some e.id) (
          Body.fault FaultKind.precondition_fail "post-reset"
            "post-reset window timed out; pinned outcome stands"))
    close_run c3 at (Phase.terminal pinned) "post-reset timeout" (some pinned) true
  | _ ↦ do
    e ← episode c
    let c1 = emit c (
        event_of at (some e.id)
          (Body.fault FaultKind.precondition_fail "reset-pipeline" "reset window timed out"))
    enter_terminal c1 at TerminalOutcome.abort "reset window timeout" true
]

unfoldable pub apply_handback : Ctx → MonoNs → Option ResetKind → HandbackThen → Outcome Ctx
unfolding apply_reset_result apply_post_reset_result close_timed_out
apply_handback c at kind (HandbackThen.apply_pre_result result verified) =
    apply_reset_result c at result verified
apply_handback c at kind (HandbackThen.apply_post_result result) =
    apply_post_reset_result c at result "remote reset window"
apply_handback c at kind HandbackThen.timeout_close = close_timed_out c at kind

-- After the window closes: gate to PASSTHROUGH, the reset claim released, the window cleared.
unfoldable pub drop_window : Ctx → MonoNs → Outcome Ctx
unfolding set_gate take_claim update_episode
drop_window c at = do
  c1 ←
      (if same_mode c.s.gate_mode GateMode.reset
        then set_gate c at GateMode.passthrough "reset window closed"
        else done c)
  c2 ← take_claim c1 at "reset window closed"
  update_episode c2 (λ e. record e { reset_window = none })

-- Then the window's result applies.
unfoldable pub close_reset_window : Ctx → MonoNs → HandbackThen → Outcome Ctx
unfolding episode drop_window apply_handback
close_reset_window c at next = do
  e ← episode c
  c1 ← drop_window c at
  apply_handback c1 at (window_kind e.reset_window) next

abbrev pub window_engaged : Option ResetWindowState → Bool
window_engaged none = false
window_engaged (some w) = w.engaged

-- E21 and E22: the lease goes home before the window's result applies.
unfoldable pub begin_reset_handback : Ctx → MonoNs → HandbackThen → Outcome Ctx
unfolding episode holder mint close_reset_window
begin_reset_handback c at next = do
  e ← episode c
  let close = close_reset_window c at next
  if window_engaged e.reset_window
      then elim (holder c.s.lease) [
        | some (from, _) ↦ done (
            mint c (record {
              op = LeaseOpKind.handoff from c.cfg.loop_client;
              next = AfterLease.reset_handback next;
            }))
        | none ↦ close
      ]
      else close
