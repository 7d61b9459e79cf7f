-- ===== src/Session/Safety/Timers.antt =====
-- Timers, windows, diagnostics and the agent invite of session.rs keep the invariant.
use waddle_sdk.Prelude.{
  ℕ, Bool, true, false, ◌≡◌, refl, Option, none, some, String, is_some, arith, ◌==◌, if◌then◌else◌,
  not,
}
use waddle_sdk.Prelude.Int.{ℤ}
use waddle_sdk.Types.Time.{MonoNs}
use waddle_sdk.Types.{ClaimId, TerminalOutcome}
use waddle_sdk.Session.Episode.{EpisodeState, ResetWindowState, invite_open}
use waddle_sdk.Session.Effect.{TimerId, HandbackThen, Effect}
use waddle_sdk.Session.Event.{RejectReason}
use waddle_sdk.Session.Context.{Ctx, emit, push}
use waddle_sdk.Session.Reset.{begin_reset_handback}
use waddle_sdk.Session.Emission.{Body, ResetWindowEventKind, event_of}
use waddle_sdk.Session.Handlers.Plane.{on_heartbeat_stale}
use waddle_sdk.Session.Handlers.Windows.{
  on_timer_fired, on_dual_write, on_intervention_rejected, on_post_reset_result,
  on_reset_window_engage, on_reset_window_complete, on_agent_task_denied, abort_invite,
  on_reset_window_timeout, complete_then,
}
use waddle_sdk.Session.Phases.{post_reset?, in_reset_phase}
use waddle_sdk.Session.Safety.Invariant.{Inv, Keeps, Keeps-if, window_fits}
use waddle_sdk.Session.Safety.Closing.{at_episode}
use waddle_sdk.Session.Safety.Resets.{request_terminal-Keeps, apply_post_reset_result-Keeps}
use waddle_sdk.Session.Safety.Windows.{begin_reset_handback-Keeps}
use waddle_sdk.Session.Safety.Takeover.{mint_engage_handoff-Keeps}

on_heartbeat_stale-Keeps : (c : Ctx) (at : MonoNs) → Inv c.s → Keeps (on_heartbeat_stale c at)
unfolding on_heartbeat_stale
on_heartbeat_stale-Keeps c at v = ground arith

module _ (c : Ctx) where
  pub on_dual_write-Keeps :
      (o : Option EpisodeState) (metric : ℕ) (window_ns : ℤ) (trace_ref : String) (at : MonoNs)
      → Inv (at_episode c o).s
      → Keeps (on_dual_write (at_episode c o) metric window_ns trace_ref at)
  unfolding on_dual_write
  on_dual_write-Keeps none metric window_ns trace_ref at v = tt
  on_dual_write-Keeps (some e) metric window_ns trace_ref at v = ground arith

  pub on_intervention_rejected-Keeps :
      (o : Option EpisodeState) (source : String) (reason : RejectReason) (at : MonoNs)
      → Inv (at_episode c o).s
      → Keeps (on_intervention_rejected (at_episode c o) source reason at)
  unfolding on_intervention_rejected
  on_intervention_rejected-Keeps none source reason at v = tt
  on_intervention_rejected-Keeps (some e) source reason at v = ground arith

  pub on_post_reset_result-Keeps :
      (o : Option EpisodeState) (result : Bool) (detail : String) (at : MonoNs)
      → Inv (at_episode c o).s
      → Keeps (on_post_reset_result (at_episode c o) result detail at)
  unfolding on_post_reset_result
  on_post_reset_result-Keeps none result detail at v = tt
  on_post_reset_result-Keeps (some e) result detail at v =
      ground (arith, apply_post_reset_result-Keeps (at_episode c (some e)) e at result detail refl)

  pub on_reset_window_engage-Keeps :
      (o : Option EpisodeState) (id : ClaimId) (at : MonoNs)
      → Inv (at_episode c o).s
      → Keeps (on_reset_window_engage (at_episode c o) id at)
  unfolding on_reset_window_engage
  on_reset_window_engage-Keeps none id at v = tt
  on_reset_window_engage-Keeps (some e) id at v = ground arith

  abort_invite-Keeps :
      (e : EpisodeState) (at : MonoNs) (reason : String)
      → post_reset? e.phase ≡ false
      → window_fits e e.reset_window ≡ true
      → Keeps (abort_invite (at_episode c (some e)) at reason)
  unfolding abort_invite
  abort_invite-Keeps e at reason p w =
      request_terminal-Keeps (at_episode c (some (record e { invite_aborted = true })))
        (record e { invite_aborted = true }) at TerminalOutcome.abort reason refl p w

  open_window_timed_out :
      (e : EpisodeState) (w : Option ResetWindowState) (at : MonoNs)
      → Inv (at_episode c (some (record e { reset_window = w }))).s
      → Keeps (on_reset_window_timeout (at_episode c (some (record e { reset_window = w }))) at)
  unfolding on_reset_window_timeout
  open_window_timed_out e none at v = v
  open_window_timed_out e (some w) at v =
      begin_reset_handback-Keeps _ (record e { reset_window = some w }) at
        HandbackThen.timeout_close refl tt (ground arith)

  on_reset_window_timeout-Keeps :
      (o : Option EpisodeState) (at : MonoNs)
      → is_some o ≡ true
      → Inv (at_episode c o).s
      → Keeps (on_reset_window_timeout (at_episode c o) at)
  on_reset_window_timeout-Keeps none at p v = cc
  on_reset_window_timeout-Keeps (some e) at p v = open_window_timed_out e e.reset_window at v

  -- The only timer that needs an episode is the reset window's.
  abbrev pub TimerFits : TimerId → Option EpisodeState → Type 0
  TimerFits TimerId.reset_window_timeout o = is_some o ≡ true
  TimerFits _ o = Unit

  pub on_timer_fired-Keeps :
      (o : Option EpisodeState) (id : TimerId) (at : MonoNs)
      → TimerFits id o
      → Inv (at_episode c o).s
      → Keeps (on_timer_fired (at_episode c o) id at)
  unfolding on_timer_fired
  on_timer_fired-Keeps o TimerId.engage_timeout at f v = ground arith
  on_timer_fired-Keeps none TimerId.chunk_boundary_cap at f v = ground arith
  on_timer_fired-Keeps (some e) TimerId.chunk_boundary_cap at f v =
      ground (arith, mint_engage_handoff-Keeps c (some e))
  on_timer_fired-Keeps o TimerId.heartbeat_stale at f v =
      on_heartbeat_stale-Keeps (at_episode c o) at v
  on_timer_fired-Keeps none TimerId.agent_invite_timeout at f v = v
  on_timer_fired-Keeps (some e) TimerId.agent_invite_timeout at f v =
      ground (arith, abort_invite-Keeps e at "no agent engaged")
  on_timer_fired-Keeps o TimerId.reset_window_timeout at f v =
      on_reset_window_timeout-Keeps o at f v

  of_not-false : {b : Bool} → not b ≡ false → b ≡ true
  of_not-false {b} h = ground arith

  open_denied :
      (e : EpisodeState) (detail : String) (at : MonoNs)
      → invite_open e ≡ true
      → Inv (at_episode c (some e)).s
      → Keeps (
          abort_invite
            (at_episode c (some e))
            at
            (if detail == "" then "agent task denied" else detail))
  unfolding invite_open
  open_denied e detail at o v = abort_invite-Keeps e at _ (ground arith) v.fits.1

  pub on_agent_task_denied-Keeps :
      (o : Option EpisodeState) (detail : String) (at : MonoNs)
      → Inv (at_episode c o).s
      → Keeps (on_agent_task_denied (at_episode c o) detail at)
  unfolding on_agent_task_denied
  on_agent_task_denied-Keeps none detail at v = tt
  on_agent_task_denied-Keeps (some e) detail at v =
      Keeps-if (not e.agent_invited) _ _ (λ _. tt)
        λ _.
          Keeps-if (not (invite_open e)) _ _ (λ _. tt)
            λ n. open_denied e detail at (of_not-false n) v

  completion_begun :
      (e : EpisodeState) (w : ResetWindowState) (id : ClaimId) (result : Bool)
      (verified : Option Bool) (at : MonoNs)
      → in_reset_phase (some e) ≡ true
      → Inv (at_episode c (some (record e { reset_window = some w }))).s
      → Keeps (
          begin_reset_handback
            (push
              (emit (at_episode c (some (record e { reset_window = some w }))) (
                event_of at (some e.id) (
                  Body.reset_window ResetWindowEventKind.completed w.kind w.prompt w.expected id
                    (some (result, "")))))
              (Effect.cancel_timer TimerId.reset_window_timeout))
            at
            (complete_then w result verified))
  unfolding emit push event_of complete_then
  completion_begun e w id result verified at p v =
      begin_reset_handback-Keeps _ (record e { reset_window = some w }) at
        (complete_then w result verified) refl (ground arith) (ground arith)

  window_completed :
      (e : EpisodeState) (w : Option ResetWindowState) (id : ClaimId) (result : Bool)
      (verified : Option Bool) (at : MonoNs)
      → Inv (at_episode c (some (record e { reset_window = w }))).s
      → Keeps (
          on_reset_window_complete
            (at_episode c (some (record e { reset_window = w })))
            id
            result
            verified
            at)
  unfolding on_reset_window_complete
  window_completed e none id result verified at v = ground arith
  window_completed e (some w) id result verified at v =
      ground (arith, completion_begun e w id result verified at)

  pub on_reset_window_complete-Keeps :
      (o : Option EpisodeState) (id : ClaimId) (result : Bool) (verified : Option Bool)
      (at : MonoNs)
      → Inv (at_episode c o).s
      → Keeps (on_reset_window_complete (at_episode c o) id result verified at)
  unfolding on_reset_window_complete
  on_reset_window_complete-Keeps none id result verified at v = tt
  on_reset_window_complete-Keeps (some e) id result verified at v =
      window_completed e e.reset_window id result verified at v
