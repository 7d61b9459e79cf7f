-- ===== src/Session/Safety/Stop.antt =====
-- Where the emergency stop of session.rs (E11, E17, L8) leaves the session.
use waddle_sdk.Prelude.{◌≡◌, true, refl, ◌∙◌, Option, none, some, is_some}
use waddle_sdk.Outcome.{Outcome, done, rejected, panicked}
use waddle_sdk.Types.Time.{MonoNs}
use waddle_sdk.Types.{TerminalOutcome, GateMode}
use waddle_sdk.Lease.{LeaseState}
use waddle_sdk.Session.Episode.{Phase, EpisodeState, ResetWindowState}
use waddle_sdk.Session.Phases.{is_active}
use waddle_sdk.Session.Context.{Ctx, close_run, enter_terminal}
use waddle_sdk.Session.Handlers.Leases.{on_estop, estop_post_reset, revoke_all}
use waddle_sdk.Session.Safety.Invariant.{Inv, pin_fits}
use waddle_sdk.Session.Safety.Closing.{at_episode, by_episode, Closes, close_run-Closes}

abbrev pinned_phase : Option TerminalOutcome → Phase
pinned_phase none = Phase.post_reset
pinned_phase (some o) = Phase.terminal o

abbrev stopped_at : EpisodeState → Phase → EpisodeState
stopped_at e (Phase.terminal o) = e
stopped_at e Phase.post_reset = record e {
  phase = pinned_phase e.pinned_outcome;
  post_reset_failed = true;
  reset_window = none;
}
stopped_at e _ = record e { phase = Phase.terminal TerminalOutcome.abort }

-- The episode after a stop: an ended one stays, one in POST_RESET keeps its pinned outcome and is
-- flagged, any other is aborted.
abbrev pub stopped_episode : Option EpisodeState → Option EpisodeState
stopped_episode none = none
stopped_episode (some e) = some (stopped_at e e.phase)

pub record Stopped (c d : Ctx) : Type 0 where
  pub episode : d.s.episode ≡ stopped_episode c.s.episode
  pub lease : d.s.lease ≡ LeaseState.vacant
  pub pending_lease : d.s.pending_lease ≡ none
  pub claim : is_active c.s.episode ≡ true → d.s.claim ≡ none
  pub gate_mode : is_active c.s.episode ≡ true → d.s.gate_mode ≡ GateMode.passthrough

abbrev pub Stops : Ctx → Outcome Ctx → Type 0
Stops c (done d) = Stopped c d
Stops c (rejected reason) = ⊥
Stops c (panicked m) = ⊥

abbrev at_parts :
    Ctx → EpisodeState → Phase → Option TerminalOutcome → Option ResetWindowState → LeaseState → Ctx
at_parts c e p o w l = record c {
  s = record (c.s) {
    episode = some (record e { phase = p; pinned_outcome = o; reset_window = w });
    lease = l;
  };
}

Closes-Stops :
    (c k : Ctx) (e : EpisodeState) (to : Phase) (r : Outcome Ctx)
    → some (record e { phase = to }) ≡ stopped_episode c.s.episode
    → k.s.lease ≡ LeaseState.vacant
    → Closes e to true k r
    → Stops c r
Closes-Stops c k e to (done d) p l h = record {
  episode = h.episode ∙ p;
  lease = h.lease ∙ l;
  pending_lease = h.pending_lease;
  claim = λ _. h.claim;
  gate_mode = λ _. h.gate_mode;
}
Closes-Stops c k e to (rejected reason) p l h = absurd h
Closes-Stops c k e to (panicked m) p l h = absurd h

closed_stop :
    (c k : Ctx) (e : EpisodeState) (to : Phase) (at : MonoNs) (outcome : Option TerminalOutcome)
    → k.s.episode ≡ some e
    → k.s.lease ≡ LeaseState.vacant
    → some (record e { phase = to }) ≡ stopped_episode c.s.episode
    → Stops c (close_run k at to "estop" outcome true)
closed_stop c k e to at outcome q l p =
    by_episode
      (λ x. x.s.lease ≡ LeaseState.vacant → Stops c (close_run x at to "estop" outcome true)) k e q
      (λ l2. Closes-Stops c _ e to _ p l2 (close_run-Closes k e at to "estop" outcome true)) l

pinned :
    (c : Ctx) (e : EpisodeState) (at : MonoNs) (o : Option TerminalOutcome)
    (w : Option ResetWindowState) (l : LeaseState)
    → is_some o ≡ true
    → Stops
        (at_parts c e Phase.post_reset o w l)
        (estop_post_reset (revoke_all (at_parts c e Phase.post_reset o w l) at) at)
unfolding estop_post_reset revoke_all
pinned c e at none w l p = cc
pinned c e at (some o) none LeaseState.vacant p =
    closed_stop _ _ _ (Phase.terminal o) at (some o) refl refl refl
pinned c e at (some o) (some w) LeaseState.vacant p =
    closed_stop _ _ _ (Phase.terminal o) at (some o) refl refl refl
pinned c e at (some o) none (LeaseState.held lease client) p =
    closed_stop _ _ _ (Phase.terminal o) at (some o) refl refl refl
pinned c e at (some o) (some w) (LeaseState.held lease client) p =
    closed_stop _ _ _ (Phase.terminal o) at (some o) refl refl refl

abbrev with_lease : Ctx → Option EpisodeState → LeaseState → Ctx
with_lease c o l = record c { s = record (c.s) { episode = o; lease = l } }

revoked_lease :
    (c : Ctx) (at : MonoNs) (l : LeaseState)
    → (revoke_all (with_lease c c.s.episode l) at).s.lease ≡ LeaseState.vacant
unfolding revoke_all
revoked_lease c at LeaseState.vacant = refl
revoked_lease c at (LeaseState.held lease client) = refl

revoked_episode :
    (c : Ctx) (at : MonoNs) (l : LeaseState)
    → (revoke_all (with_lease c c.s.episode l) at).s.episode ≡ c.s.episode
unfolding revoke_all
revoked_episode c at LeaseState.vacant = refl
revoked_episode c at (LeaseState.held lease client) = refl

by_phase :
    (c : Ctx) (e : EpisodeState) (p : Phase) (at : MonoNs)
    → pin_fits (record e { phase = p }) ≡ true
    → Stops
        (at_parts c e p e.pinned_outcome e.reset_window c.s.lease)
        (on_estop (at_parts c e p e.pinned_outcome e.reset_window c.s.lease) at)
unfolding on_estop enter_terminal
by_phase c e Phase.post_reset at f = pinned c e at e.pinned_outcome e.reset_window c.s.lease f
by_phase c e (Phase.terminal o) at f = record {
  episode =
      revoked_episode (at_parts c e (Phase.terminal o) e.pinned_outcome e.reset_window c.s.lease) at
        c.s.lease;
  lease =
      revoked_lease (at_parts c e (Phase.terminal o) e.pinned_outcome e.reset_window c.s.lease) at
        c.s.lease;
  pending_lease = refl;
  claim = λ h. cc;
  gate_mode = λ h. cc;
}
by_phase c e p at f =
    closed_stop _ _ _ (Phase.terminal TerminalOutcome.abort) at (some TerminalOutcome.abort)
      (revoked_episode (at_parts c e p e.pinned_outcome e.reset_window c.s.lease) at c.s.lease)
      (revoked_lease (at_parts c e p e.pinned_outcome e.reset_window c.s.lease) at c.s.lease) refl

by_option :
    (c : Ctx) (o : Option EpisodeState) (at : MonoNs)
    → Inv (at_episode c o).s
    → Stops (at_episode c o) (on_estop (at_episode c o) at)
unfolding on_estop
by_option c none at v = record {
  episode = revoked_episode (at_episode c none) at c.s.lease;
  lease = revoked_lease (at_episode c none) at c.s.lease;
  pending_lease = refl;
  claim = λ h. cc;
  gate_mode = λ h. cc;
}
by_option c (some e) at v = by_phase c e e.phase at v.fits.0

-- An emergency stop is never rejected in any phase, that of an ended episode included, and, from a state of the invariant, never panics. After it
-- the lease is vacant and no lease operation is in flight, also where no episode is active (L8); an
-- episode that had ended or was never opened is as it was; one in POST_RESET has ended with its pinned outcome, is flagged and has no
-- window; any other has ended as aborted; and where an episode was active, the claim is released
-- and the gate is PASSTHROUGH.
pub on_estop-Stops : (c : Ctx) (at : MonoNs) → Inv c.s → Stops c (on_estop c at)
on_estop-Stops c at v = by_option c c.s.episode at v
