-- ===== src/Session/Handlers/Windows.antt =====
-- Handlers of session.rs's `step` for timers, diagnostics, post-reset, reset windows and the agent
-- invite: E15, E16, E19b to E22, E25, E26, N14.
use waddle_sdk.Prelude.{
  ℕ, Bool, true, false, not, Option, none, some, String, ◌<>◌, decimal, ◌==◌, is_some,
  if◌then◌else◌,
}
use waddle_sdk.Prelude.Int.{ℤ}
use waddle_sdk.Outcome.{Outcome, done, rejected, ◌>>=◌}
use waddle_sdk.Types.Time.{MonoNs}
use waddle_sdk.Types.{ClaimId, Verb, TerminalOutcome, ResetKind}
use waddle_sdk.Session.Episode.{EpisodeState, ResetWindowState, ActiveClaim, invite_open}
use waddle_sdk.Session.Emission.{Body, FaultKind, ResetWindowEventKind, event_of}
use waddle_sdk.Session.Effect.{TimerId, HandbackThen, PendingLeaseOp, Effect}
use waddle_sdk.Session.Event.{RejectReason}
use waddle_sdk.Session.State.{is_await_chunk_boundary}
use waddle_sdk.Session.Phases.{is_active, is_engage, is_post_reset, in_reset_phase}
use waddle_sdk.Session.Context.{Ctx, push, emit, episode, update_episode}
use waddle_sdk.Session.Reset.{
  request_terminal, begin_reset_engage, begin_reset_handback, apply_post_reset_result,
}
use waddle_sdk.Session.Engage.{mint_engage_handoff}
use waddle_sdk.Session.Handlers.Takeover.{holds_claim}
use waddle_sdk.Session.Handlers.Leases.{is_reset_engage}
use waddle_sdk.Session.Handlers.Plane.{on_heartbeat_stale}

unfoldable pub has_open_invite : Option EpisodeState → Bool
unfolding invite_open
has_open_invite none = false
has_open_invite (some e) = invite_open e

-- E25 and E26: the invite's own close.
unfoldable pub abort_invite : Ctx → MonoNs → String → Outcome Ctx
unfolding update_episode request_terminal
abort_invite c at reason = do
  c1 ← update_episode c (λ e. record e { invite_aborted = true })
  request_terminal c1 at TerminalOutcome.abort reason

abbrev claim_id : Option ActiveClaim → String
claim_id none = ""
claim_id (some k) = k.id

-- E22.
unfoldable pub on_reset_window_timeout : Ctx → MonoNs → Outcome Ctx
unfolding episode emit event_of begin_reset_handback
on_reset_window_timeout c at = do
  e ← episode c
  elim e.reset_window [
    | none ↦ done c
    | some w ↦
        begin_reset_handback
          (emit c (
            event_of at (some e.id) (
              Body.reset_window ResetWindowEventKind.timed_out w.kind w.prompt w.expected
                (claim_id c.s.claim) (some (false, "reset window timed out")))))
          at HandbackThen.timeout_close
  ]

unfoldable pub on_timer_fired : Ctx → TimerId → MonoNs → Outcome Ctx
unfolding has_open_invite mint_engage_handoff on_heartbeat_stale abort_invite
    on_reset_window_timeout
on_timer_fired c TimerId.engage_timeout at =
    if is_engage c.s.episode
    then done (record c { s = record (c.s) { engage_timed_out = true } })
    else done c
on_timer_fired c TimerId.chunk_boundary_cap at =
    if is_await_chunk_boundary c.s.engage_stage then mint_engage_handoff c else done c
on_timer_fired c TimerId.heartbeat_stale at = on_heartbeat_stale c at
on_timer_fired c TimerId.agent_invite_timeout at =
    if has_open_invite c.s.episode then abort_invite c at "no agent engaged" else done c
on_timer_fired c TimerId.reset_window_timeout at = on_reset_window_timeout c at

-- N14.
unfoldable pub on_dual_write : Ctx → ℕ → ℤ → String → MonoNs → Outcome Ctx
unfolding episode emit push event_of
on_dual_write c divergence_metric window_ns trace_ref at =
    if is_active c.s.episode
    then (do
      e ← episode c
      done (
          push
            (emit c (
              event_of at (some e.id)
                (Body.dual_write divergence_metric window_ns trace_ref Verb.hold)))
            (Effect.request_verb Verb.hold)))
    else rejected "dual-write detection without an active episode"

unfoldable pub reject_detail : RejectReason → String
reject_detail (RejectReason.dims got want) =
    "action carried " <> decimal got <> " dims; declared action space wants " <> decimal want
reject_detail (RejectReason.not_executable why) = "chunk refused: " <> why
reject_detail (RejectReason.inert_steps_skipped skipped total) =
    "skipped "
    <> decimal skipped
    <> " of "
    <> decimal total
    <> " steps carrying nothing to dispatch (NOOP marker with no gripper command); the rest executed"

unfoldable pub on_intervention_rejected : Ctx → String → RejectReason → MonoNs → Outcome Ctx
unfolding episode emit event_of
on_intervention_rejected c source reason at =
    if is_active c.s.episode
    then (do
      e ← episode c
      done (
          emit c (
            event_of at (some e.id)
              (Body.fault FaultKind.validation_error source (reject_detail reason)))))
    else rejected "intervention_rejected without an active episode"

-- E15 and E16, with E19b.
unfoldable pub on_post_reset_result : Ctx → Bool → String → MonoNs → Outcome Ctx
unfolding episode apply_post_reset_result
on_post_reset_result c result detail at =
    if not (is_post_reset c.s.episode) then rejected "post_reset_result outside POST_RESET" else do
      e ← episode c
      if is_some e.reset_window
          then rejected "post_reset_result illegal while a remote reset window is open (E19b)"
          else apply_post_reset_result c at result detail

-- E20.
unfoldable pub on_reset_window_engage : Ctx → ClaimId → MonoNs → Outcome Ctx
unfolding episode begin_reset_engage
on_reset_window_engage c claim at =
    if not (in_reset_phase c.s.episode)
    then rejected "reset_window_engage outside a reset phase"
    else do
      e ← episode c
      elim e.reset_window [
        | none ↦ rejected "no open reset window"
        | some w ↦
            if w.engaged
            then rejected "reset window already engaged"
            else if holds_claim c.s.claim claim
            then begin_reset_engage c
            else rejected "reset_window_engage without the granted reset claim"
      ]

abbrev pub engage_in_flight : Option PendingLeaseOp → Bool
engage_in_flight none = false
engage_in_flight (some pending) = is_reset_engage pending.next

unfoldable pub complete_then : ResetWindowState → Bool → Option Bool → HandbackThen
complete_then w result verified = elim w.kind [
  | ResetKind.pre ↦ HandbackThen.apply_pre_result result verified
  | ResetKind.post ↦ HandbackThen.apply_post_result result
]

-- E21.
unfoldable pub on_reset_window_complete : Ctx → ClaimId → Bool → Option Bool → MonoNs → Outcome Ctx
unfolding episode emit push event_of begin_reset_handback complete_then
on_reset_window_complete c claim result verified at =
    if not (in_reset_phase c.s.episode)
    then rejected "reset_window_complete outside a reset phase"
    else do
      e ← episode c
      elim e.reset_window [
        | none ↦ rejected "no open reset window"
        | some w ↦
            if not (holds_claim c.s.claim claim)
            then rejected "reset_window_complete without the active reset claim"
            else if engage_in_flight c.s.pending_lease
            then rejected "reset window engage in flight; complete not honorable until it applies"
            else begin_reset_handback
                (push
                  (emit c (
                    event_of at (some e.id) (
                      Body.reset_window ResetWindowEventKind.completed w.kind w.prompt w.expected
                        claim (some (result, "")))))
                  (Effect.cancel_timer TimerId.reset_window_timeout))
                at (complete_then w result verified)
      ]

-- E26 and E26b.
unfoldable pub on_agent_task_denied : Ctx → String → MonoNs → Outcome Ctx
unfolding invite_open abort_invite
on_agent_task_denied c detail at = elim c.s.episode [
  | none ↦ rejected "agent_update{DENIED} without an episode"
  | some e ↦
      if not e.agent_invited
      then rejected "agent_update{DENIED} on a non-agent-invited episode"
      else if not (invite_open e)
      then rejected "agent task DENIED after the invite closed (E26b)"
      else abort_invite c at (if detail == "" then "agent task denied" else detail)
]
