-- ===== src/Session/Handlers/Leases.antt =====
-- Handlers of session.rs's `step` for lease completions (L1, L6) and the emergency stop (E11, E17).
use waddle_sdk.Prelude.{
  Bool, true, false, ◌&&◌, ◌||◌, Option, none, some, String, ◌<>◌, is_none, if◌then◌else◌,
}
use waddle_sdk.Outcome.{Outcome, done, rejected, panicked, expect, ◌>>=◌}
use waddle_sdk.Types.Time.{MonoNs}
use waddle_sdk.Types.{LeaseId, Verb, TerminalOutcome, GateMode, InterventionPhase}
use waddle_sdk.Lease.{LeaseCmd, LeaseOutcome}
use waddle_sdk.Lease
use waddle_sdk.Session.Episode.{Phase, EpisodeState, ResetWindowState}
use waddle_sdk.Session.Emission.{Body, FaultKind, LeaseEventKind, ResetWindowEventKind, event_of}
use waddle_sdk.Session.Effect.{TimerId, LeaseOpKind, AfterLease, PendingLeaseOp, Effect}
use waddle_sdk.Session.State.{SessionFsm}
use waddle_sdk.Session.Phases.{is_active, is_post_reset}
use waddle_sdk.Session.Context.{
  Ctx, push, emit, episode, episode_id, update_episode, set_gate, transition, take_claim, close_run,
  enter_terminal,
}
use waddle_sdk.Session.Reset.{close_reset_window}

abbrev pub episode_window : Option EpisodeState → Option ResetWindowState
episode_window none = none
episode_window (some e) = e.reset_window

abbrev pub is_reset_engage : AfterLease → Bool
is_reset_engage AfterLease.reset_engage_complete = true
is_reset_engage _ = false

unfoldable pub lease_cmd : LeaseOpKind → LeaseId → LeaseCmd
lease_cmd (LeaseOpKind.acquire client) minted = LeaseCmd.acquire client minted
lease_cmd (LeaseOpKind.handoff from to) minted = LeaseCmd.handoff from to minted

-- I1 to I2: gate to INTERVENTION, phase to SETTLE.
unfoldable pub complete_engage : Ctx → MonoNs → Outcome Ctx
unfolding push episode update_episode emit event_of set_gate
complete_engage c at = do
  let c1 = record c { s = record (c.s) { engage_stage = none; engage_timed_out = false } }
  let c2 = push c1 (Effect.cancel_timer TimerId.engage_timeout)
  k ← expect c2.s.claim "claim held"
  e ← episode c2
  c3 ← update_episode c2 (λ e1. record e1 { phase = Phase.intervention InterventionPhase.settle })
  let c4 = emit c3 (event_of at (some e.id) (Body.intervention InterventionPhase.settle k.id))
  set_gate c4 at GateMode.intervention "engage"

-- E8: gate to PASSTHROUGH, phase to RUNNING, claim released.
unfoldable pub complete_release : Ctx → MonoNs → Outcome Ctx
unfolding set_gate transition take_claim
complete_release c at = do
  c1 ← set_gate c at GateMode.passthrough "release"
  c2 ← transition c1 at Phase.running "release" none
  take_claim c2 at "release"

abbrev engage_window : Option ResetWindowState → Option ResetWindowState
engage_window none = none
engage_window (some w) = some (record w { engaged = true })

-- E20: gate to RESET, then `reset_window{ENGAGED}`.
unfoldable pub complete_reset_engage : Ctx → MonoNs → Outcome Ctx
unfolding update_episode set_gate episode emit event_of
complete_reset_engage c at = do
  k ← expect c.s.claim "reset claim held"
  c1 ← update_episode c (λ e. record e { reset_window = engage_window e.reset_window })
  c2 ← set_gate c1 at GateMode.reset "reset window engaged"
  e ← episode c2
  w ← expect e.reset_window "window open during engage"
  done (
      emit c2 (
        event_of at (some e.id)
          (Body.reset_window ResetWindowEventKind.engaged w.kind w.prompt w.expected k.id none)))

unfoldable pub after_lease : Ctx → MonoNs → AfterLease → Outcome Ctx
unfolding complete_engage complete_release complete_reset_engage close_reset_window
after_lease c at AfterLease.initial_acquire = done c
after_lease c at AfterLease.engage_complete = complete_engage c at
after_lease c at AfterLease.release_complete = complete_release c at
after_lease c at AfterLease.reset_engage_complete = complete_reset_engage c at
after_lease c at (AfterLease.reset_handback next) = close_reset_window c at next

-- The lease machine's answer. A denial fails closed.
unfoldable pub lease_answer : Ctx → MonoNs → LeaseOutcome → AfterLease → Outcome Ctx
unfolding emit event_of after_lease
lease_answer c at (LeaseOutcome.granted lease client fresh) next =
    after_lease
      (emit c (
        event_of at (episode_id c.s.episode)
          (Body.lease LeaseEventKind.acquired (some (lease, client)) c.cfg.enforcement "")))
      at next
lease_answer c at (LeaseOutcome.handed_off old new to) next =
    after_lease
      (emit c (
        event_of at (episode_id c.s.episode) (
          Body.lease LeaseEventKind.handed_off (some (new, to)) c.cfg.enforcement
            ("from " <> old))))
      at next
lease_answer c at (LeaseOutcome.denied detail) next = done (
    emit c (
      event_of at (episode_id c.s.episode)
        (Body.lease LeaseEventKind.denied none c.cfg.enforcement detail)))
lease_answer c at (LeaseOutcome.released lease) next = panicked "not produced by acquire/handoff"
lease_answer c at (LeaseOutcome.revoked_all was) next = panicked "not produced by acquire/handoff"

-- A reset-engage mint whose claim or window is gone.
abbrev pub is_stale : SessionFsm → AfterLease → Bool
is_stale s next = is_reset_engage next && (is_none s.claim || is_none (episode_window s.episode))

unfoldable pub apply_lease : Ctx → PendingLeaseOp → LeaseId → MonoNs → Outcome Ctx
unfolding Lease.step lease_cmd lease_answer
apply_lease c pending minted at =
    let r = Lease.step c.s.lease (lease_cmd pending.op minted) in
    lease_answer (record c { s = record (c.s) { lease = r.0 } }) at r.1 pending.next

unfoldable pub on_lease_token_minted : Ctx → LeaseId → MonoNs → Outcome Ctx
unfolding emit event_of apply_lease
on_lease_token_minted c minted at = elim c.s.pending_lease [
  | none ↦ rejected "no pending lease operation"
  | some pending ↦
      let c1 = record c { s = record (c.s) { pending_lease = none } } in
      if is_stale c.s pending.next
      then done (
          emit c1 (
            event_of at (episode_id c.s.episode) (
              Body.lease LeaseEventKind.denied none c.cfg.enforcement
                "stale reset-engage mint: the reset claim closed before the token applied")))
      else apply_lease c1 pending minted at
]

abbrev revoked_detail : Option LeaseId → String
revoked_detail none = ""
revoked_detail (some lease) = "revoked " <> lease

-- The emission for `RevokeAll`'s outcome.
unfoldable pub emit_revoked : Ctx → MonoNs → LeaseOutcome → Ctx
unfolding emit event_of
emit_revoked c at (LeaseOutcome.revoked_all was) = emit c (
    event_of at (episode_id c.s.episode)
      (Body.lease LeaseEventKind.revoked_all none c.cfg.enforcement (revoked_detail was)))
emit_revoked c at _ = c

-- E17: the window, if one is open, is cancelled.
unfoldable pub cancel_window : Ctx → MonoNs → Outcome Ctx
unfolding episode update_episode emit event_of
cancel_window c at = do
  e ← episode c
  elim e.reset_window [
    | none ↦ done c
    | some w ↦
        update_episode
          (emit c (
            event_of at (some e.id) (
              Body.reset_window ResetWindowEventKind.cancelled w.kind w.prompt w.expected "" none)))
          (λ e1. record e1 { reset_window = none })
  ]

-- E17: the pinned outcome stands, and the failure is flagged.
unfoldable pub estop_post_reset : Ctx → MonoNs → Outcome Ctx
unfolding episode update_episode push cancel_window close_run
estop_post_reset c at = do
  e ← episode c
  pinned ← expect e.pinned_outcome "pinned_outcome set at E14"
  c1 ← update_episode c (λ e1. record e1 { post_reset_failed = true })
  let c2 = push c1 (Effect.set_post_reset_failed e.id)
  c3 ← cancel_window c2 at
  close_run c3 at (Phase.terminal pinned) "estop" (some pinned) true

-- What an emergency stop does in any state: every lease dies, the stop is recorded and requested.
unfoldable pub revoke_all : Ctx → MonoNs → Ctx
unfolding Lease.step emit_revoked emit push event_of
revoke_all c at =
    let r = Lease.step c.s.lease LeaseCmd.revoke_all in
    let c1 = emit_revoked (record c { s = record (c.s) { lease = r.0 } }) at r.1 in
    let c2 = emit c1 (
      event_of at (episode_id c.s.episode) (Body.fault FaultKind.estop "estop" "emergency stop")) in
    let c3 = push c2 (Effect.request_verb Verb.estop) in
    record c3 { s = record (c3.s) { pending_lease = none } }

-- E11 and L8.
unfoldable pub on_estop : Ctx → MonoNs → Outcome Ctx
unfolding revoke_all estop_post_reset enter_terminal
on_estop c at =
    let c1 = revoke_all c at in
    if is_post_reset c.s.episode
    then estop_post_reset c1 at
    else if is_active c.s.episode
    then enter_terminal c1 at TerminalOutcome.abort "estop" true
    else done c1
