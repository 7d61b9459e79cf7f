-- ===== src/Session/Handlers/Episodes.antt =====
-- Handlers of session.rs's `step` for the episode's own lifecycle: E1 to E6, E10, E13, marks and
-- judgments.
use waddle_sdk.Prelude.{
  Bool, true, false, ◌&&◌, ◌||◌, not, Option, none, some, String, is_some, is_none, if◌then◌else◌,
}
use waddle_sdk.Outcome.{Outcome, done, rejected, ◌>>=◌}
use waddle_sdk.Types.Time.{MonoNs, saturating_add}
use waddle_sdk.Types.{EpisodeId, TerminalOutcome, EpisodeStateKind, ResetKind}
use waddle_sdk.Lease.{LeaseState}
use waddle_sdk.Session.Episode.{Phase, WindowSpec, AgentInvite, EpisodeState, open_episode}
use waddle_sdk.Session.Emission.{Body, MarkKind, event_of}
use waddle_sdk.Session.Effect.{TimerId, LeaseOpKind, AfterLease, Effect}
use waddle_sdk.Session.Event.{OpenRequest, terminal_outcome}
use waddle_sdk.Session.Phases.{is_active, is_resetting, is_ready, is_post_reset, is_blocking}
use waddle_sdk.Session.Context.{Ctx, push, emit, episode, update_episode, transition}
use waddle_sdk.Session.Reset.{open_reset_window, mint, apply_reset_result, request_terminal}

abbrev is_vacant : LeaseState → Bool
is_vacant LeaseState.vacant = true
is_vacant (LeaseState.held lease client) = false

-- E23.
unfoldable pub announce_invite : Ctx → MonoNs → EpisodeId → Option AgentInvite → Ctx
unfolding emit push event_of
announce_invite c at id none = c
announce_invite c at id (some invite) =
    push
      (emit c (
        event_of at (some id)
          (Body.agent_invite invite.prompt invite.timeout_ns invite.task_metadata)))
      (Effect.arm_timer TimerId.agent_invite_timeout (saturating_add at invite.timeout_ns))

-- E19, PRE: not for a successor under a surviving claim.
unfoldable pub open_pre_window : Ctx → MonoNs → Option WindowSpec → Outcome Ctx
unfolding open_reset_window
open_pre_window c at none = done c
open_pre_window c at (some spec) =
    if is_none c.s.claim then open_reset_window c at ResetKind.pre spec else done c

-- The loop's initial acquire.
unfoldable pub acquire_initial : Ctx → Ctx
unfolding mint
acquire_initial c =
    if is_vacant c.s.lease && is_none c.s.pending_lease
    then mint c
        (record { op = LeaseOpKind.acquire c.cfg.loop_client; next = AfterLease.initial_acquire })
    else c

unfoldable pub opened_episode : OpenRequest → EpisodeState
unfolding open_episode
opened_episode r =
    let e = open_episode r.id r.verification r.born_claimed r.parent in
    record e {
      post_reset_declared = r.post_reset || is_some r.post_window;
      post_window = r.post_window;
      agent_invited = is_some r.agent_invite;
    }

-- What follows once the new episode stands in the session.
unfoldable pub announce_open : Ctx → OpenRequest → MonoNs → Outcome Ctx
unfolding emit event_of announce_invite open_pre_window acquire_initial
announce_open c r at = do
  let c1 = emit c (event_of at (some r.id) (Body.state none EpisodeStateKind.resetting "open" none))
  c2 ← open_pre_window (announce_invite c1 at r.id r.agent_invite) at r.pre_window
  done (acquire_initial c2)

-- E1.
unfoldable pub on_episode_open : Ctx → OpenRequest → MonoNs → Outcome Ctx
unfolding opened_episode announce_open
on_episode_open c r at =
    if is_active c.s.episode
    then rejected "one active episode per session (N18)"
    else if r.born_claimed && is_none c.s.claim
    then rejected "a born-claimed successor requires a held claim"
    else announce_open (record c { s = record (c.s) { episode = some (opened_episode r) } }) r at

-- E2 to E5, with E19b.
unfoldable pub on_reset_result : Ctx → Bool → Option Bool → MonoNs → Outcome Ctx
unfolding episode apply_reset_result
on_reset_result c result verified at =
    if not (is_resetting c.s.episode) then rejected "reset_result outside RESETTING" else do
      e ← episode c
      if is_some e.reset_window
          then rejected "reset_result illegal while a remote reset window is open (E19b)"
          else apply_reset_result c at result verified

-- E2 (late verification) and E13.
unfoldable pub on_verification_result : Ctx → Bool → Bool → MonoNs → Outcome Ctx
unfolding emit push event_of update_episode transition
on_verification_result c verified invalidated_async at = elim c.s.episode [
  | none ↦ rejected "no episode"
  | some e ↦
      if verified
      then (do
        let c1 =
            emit c (event_of at (some e.id) (Body.reset_verification e.verification true false))
        c2 ← update_episode c1 (λ e1. record e1 { verified = true })
        if is_resetting c.s.episode && is_blocking e.verification && e.reset_ok
            then transition c2 at Phase.ready "reset verified" none
            else done c2)
      else if e.optimistic_entry || invalidated_async
      then (do
        let c1 =
            emit c (event_of at (some e.id) (Body.reset_verification e.verification false true))
        c2 ← update_episode c1 (λ e1. record e1 { reset_unverified = true })
        done (push c2 (Effect.set_reset_unverified e.id)))
      else done
          (emit c (event_of at (some e.id) (Body.reset_verification e.verification false false)))
]

-- E6.
unfoldable pub on_start : Ctx → MonoNs → Outcome Ctx
unfolding transition
on_start c at =
    if is_ready c.s.episode
    then transition c at Phase.running "start" none
    else rejected "start outside READY"

unfoldable pub on_gate_tick : Ctx → MonoNs → Outcome Ctx
unfolding transition
on_gate_tick c at =
    if is_ready c.s.episode then transition c at Phase.running "first gated action" none else done c

-- E10, with E12 and E14b.
unfoldable pub on_terminate : Ctx → TerminalOutcome → String → MonoNs → Outcome Ctx
unfolding request_terminal
on_terminate c outcome reason at =
    if not (is_active c.s.episode)
    then rejected "terminate without an active episode (E12)"
    else if is_post_reset c.s.episode
    then rejected "terminate rejected in POST_RESET (E14b)"
    else request_terminal c at outcome reason

unfoldable pub on_judge_result : Ctx → String → Option Bool → MonoNs → Outcome Ctx
unfolding emit event_of
on_judge_result c judge_id passed at = elim c.s.episode [
  | none ↦ rejected "no episode"
  | some e ↦ done (emit c (event_of at (some e.id) (Body.judgment judge_id passed)))
]

-- E14b: in POST_RESET a late mark is recorded only.
unfoldable pub on_mark : Ctx → MarkKind → MonoNs → Outcome Ctx
unfolding episode emit event_of terminal_outcome request_terminal
on_mark c kind at =
    if not (is_active c.s.episode) then rejected "mark without an active episode (E12)" else do
      e ← episode c
      let c1 = emit c (event_of at (some e.id) (Body.mark kind))
      if is_post_reset c.s.episode then done c1 else elim (terminal_outcome kind) [
        | some outcome ↦ request_terminal c1 at outcome "mark"
        | none ↦ done c1
      ]
