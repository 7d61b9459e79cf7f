-- ===== src/Session/Safety/Leases.antt =====
-- Lease completions and the emergency stop of session.rs keep the invariant and do not panic.
use waddle_sdk.Prelude.{
  true, false, ◌≡◌, refl, eq_iff, Option, none, some, ℕ, is_some, not, if◌then◌else◌, arith,
}
use waddle_sdk.Types.Time.{MonoNs}
use waddle_sdk.Types.{LeaseId, TerminalOutcome}
use waddle_sdk.Lease.{LeaseState}
use waddle_sdk.Session.Episode.{EpisodeState, ResetWindowState, is_terminal}
use waddle_sdk.Session.Effect.{LeaseOpKind, HandbackThen, AfterLease}
use waddle_sdk.Session.Context.{Ctx, enter_terminal}
use waddle_sdk.Outcome.{Outcome, done}
use waddle_sdk.Session.Phases.{post_reset?}
use waddle_sdk.Session.Handlers.Leases.{
  apply_lease, after_lease, on_estop, estop_post_reset, revoke_all, is_stale,
}
use waddle_sdk.Session.Safety.Invariant.{Inv, Keeps, NextFits, target, EpisodeFits}
use waddle_sdk.Session.Safety.Closing.{at_episode, by_episode, close_run-Keeps}
use waddle_sdk.Session.Safety.Windows.{HandbackFits, close_reset_window-Keeps}

-- The state in which a lease completion begins: the lease has moved to the operation's target.
abbrev Moved : Ctx → LeaseOpKind → LeaseId → Type 0
Moved c op minted = c.s.lease ≡ LeaseState.held minted (target op)

handback_fits :
    (c : Ctx) (e : EpisodeState) (op : LeaseOpKind) (next : HandbackThen)
    → NextFits (at_episode c (some e)).s op (AfterLease.reset_handback next)
    → HandbackFits e next
handback_fits c e op (HandbackThen.apply_pre_result result verified) f = ground arith
handback_fits c e op (HandbackThen.apply_post_result result) f = f
handback_fits c e op HandbackThen.timeout_close f = tt

after_lease-Keeps :
    (c : Ctx) (e : EpisodeState) (at : MonoNs) (op : LeaseOpKind) (next : AfterLease)
    (minted : LeaseId)
    → c.s.pending_lease ≡ none
    → NextFits (at_episode c (some e)).s op next
    → c.s.lease ≡ LeaseState.held minted (target op)
    → is_stale (at_episode c (some e)).s next ≡ false
    → Inv (record (c.s) { episode = some e })
    → Keeps (after_lease (at_episode c (some e)) at next)
unfolding after_lease
after_lease-Keeps c e at op AfterLease.initial_acquire minted p f l n v = v
after_lease-Keeps c e at op AfterLease.engage_complete minted p f l n v = ground arith
after_lease-Keeps c e at op AfterLease.release_complete minted p f l n v = ground arith
after_lease-Keeps c e at op AfterLease.reset_engage_complete minted p f l n v = ground arith
after_lease-Keeps c e at op (AfterLease.reset_handback next) minted p f l n v =
    close_reset_window-Keeps (at_episode c (some e)) e at next refl (ground arith)
      (handback_fits c e op next f) v

estop_parts :
    (c : Ctx) (e : EpisodeState) (at : MonoNs) (o : Option TerminalOutcome)
    (w : Option ResetWindowState)
    → is_some o ≡ true
    → Keeps (
        estop_post_reset
          (at_episode c (some (record e { pinned_outcome = o; reset_window = w })))
          at)
unfolding estop_post_reset
estop_parts c e at none w p = cc
estop_parts c e at (some o) none p = close_run-Keeps _ _ at o _ _ true refl refl
estop_parts c e at (some o) (some w) p = close_run-Keeps _ _ at o _ _ true refl refl

estop_post_reset-Keeps :
    (c : Ctx) (e : EpisodeState) (at : MonoNs)
    → c.s.episode ≡ some e
    → is_some e.pinned_outcome ≡ true
    → Keeps (estop_post_reset c at)
estop_post_reset-Keeps c e at q p =
    by_episode (λ x. Keeps (estop_post_reset x at)) c e q
      (estop_parts c e at e.pinned_outcome e.reset_window p)

abbrev at_lease : Ctx → Option EpisodeState → LeaseState → Ctx
at_lease c o l = record c { s = record (c.s) { episode = o; lease = l } }

-- The stop, once the leases are revoked.
close_stopped : Ctx → EpisodeState → MonoNs → Outcome Ctx
unfolding on_estop
close_stopped c e at =
    if post_reset? e.phase
    then estop_post_reset c at
    else if not (is_terminal e.phase)
    then enter_terminal c at TerminalOutcome.abort "estop" true
    else done c

close_stopped-Keeps :
    (c : Ctx) (e : EpisodeState) (at : MonoNs)
    → c.s.episode ≡ some e
    → EpisodeFits (some e)
    → (is_terminal e.phase ≡ true → Inv c.s)
    → Keeps (close_stopped c e at)
unfolding close_stopped enter_terminal
close_stopped-Keeps c e at q f v = ground (
  arith,
  estop_post_reset-Keeps c e at,
  close_run-Keeps c e at TerminalOutcome.abort "estop" (some TerminalOutcome.abort) true,
)

on_estop_parts :
    (c : Ctx) (o : Option EpisodeState) (at : MonoNs) (l : LeaseState)
    → Inv (at_lease c o l).s
    → Keeps (on_estop (at_lease c o l) at)
unfolding on_estop close_stopped
on_estop_parts c none at LeaseState.vacant v = ground arith
on_estop_parts c none at (LeaseState.held lease client) v = ground arith
on_estop_parts c (some e) at LeaseState.vacant v =
    close_stopped-Keeps (revoke_all (at_lease c (some e) LeaseState.vacant) at) e at refl v.fits
      (λ t. ground arith)
on_estop_parts c (some e) at (LeaseState.held lease client) v =
    close_stopped-Keeps (revoke_all (at_lease c (some e) (LeaseState.held lease client)) at) e at
      refl v.fits (λ t. ground arith)

pub on_estop-Keeps : (c : Ctx) (at : MonoNs) → Inv c.s → Keeps (on_estop c at)
on_estop-Keeps c at v = on_estop_parts c c.s.episode at c.s.lease v

-- The same for a context given by an equation.
completed :
    (c : Ctx) (e : EpisodeState) (at : MonoNs) (op : LeaseOpKind) (next : AfterLease)
    (minted : LeaseId)
    → c.s.episode ≡ some e
    → c.s.pending_lease ≡ none
    → NextFits c.s op next
    → c.s.lease ≡ LeaseState.held minted (target op)
    → is_stale c.s next ≡ false
    → Inv c.s
    → Keeps (after_lease c at next)
completed c e at op next minted q =
    by_episode
      (λ x.
        x.s.pending_lease ≡ none
        → NextFits x.s op next
        → x.s.lease ≡ LeaseState.held minted (target op)
        → is_stale x.s next ≡ false
        → Inv x.s
        → Keeps (after_lease x at next))
      c e q (after_lease-Keeps c e at op next minted)

abbrev pub answering : Ctx → Option EpisodeState → LeaseState → Ctx
answering c o l = record c { s = record (c.s) { episode = o; lease = l; pending_lease = none } }

abbrev pub asking : Ctx → Option EpisodeState → LeaseState → LeaseOpKind → AfterLease → Ctx
asking c o l op next = record c {
  s = record (c.s) {
    episode = o;
    lease = l;
    pending_lease = some (record { op = op; next = next });
  };
}

-- Moving the lease keeps the invariant: nobody is settled while an operation is in flight.
moved-Inv :
    (c : Ctx) (o : Option EpisodeState) (l : LeaseState) (op : LeaseOpKind) (next : AfterLease)
    (minted : LeaseId) (b : ℕ)
    → Inv (asking c o l op next).s
    → Inv (record ((answering c o (LeaseState.held minted (target op))).s) { buffered_events = b })
moved-Inv c none l op next minted b v = ground arith
moved-Inv c (some e) l op next minted b v = ground arith

pub apply_lease-Keeps :
    (c : Ctx) (e : EpisodeState) (at : MonoNs) (l : LeaseState) (op : LeaseOpKind)
    (next : AfterLease) (minted : LeaseId)
    → is_stale (answering c (some e) l).s next ≡ false
    → Inv (asking c (some e) l op next).s
    → Keeps (apply_lease (answering c (some e) l) (record { op = op; next = next }) minted at)
unfolding apply_lease
apply_lease-Keeps c e at LeaseState.vacant (LeaseOpKind.acquire client) next minted n v =
    completed _ e at (LeaseOpKind.acquire client) next minted refl refl v.in_flight.1 refl n
      (moved-Inv c (some e) LeaseState.vacant (LeaseOpKind.acquire client) next minted _ v)
apply_lease-Keeps c e at LeaseState.vacant (LeaseOpKind.handoff from to) next minted n v =
    absurd v.in_flight.0
apply_lease-Keeps c e at (LeaseState.held lease client) (LeaseOpKind.acquire who) next minted n v =
    absurd v.in_flight.0
apply_lease-Keeps c e at (LeaseState.held lease client) (LeaseOpKind.handoff from to) next minted n
      v =
    rw ((eq_iff from lease).1 v.in_flight.0, apply_lease)
      (completed _ e at (LeaseOpKind.handoff from to) next minted refl refl v.in_flight.1 refl n (
        moved-Inv c (some e) (LeaseState.held lease client) (LeaseOpKind.handoff from to) next
          minted _ v))
