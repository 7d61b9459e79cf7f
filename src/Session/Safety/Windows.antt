-- ===== src/Session/Safety/Windows.antt =====
-- Reset results and reset windows of session.rs keep the invariant and do not panic.
use waddle_sdk.Prelude.{Bool, true, false, ◌≡◌, refl, Option, none, some, is_some, is_none, arith}
use waddle_sdk.Outcome.{Outcome, done, rejected, panicked, ◌>>=◌}
use waddle_sdk.Types.Time.{MonoNs}
use waddle_sdk.Types.{GateMode, ResetVerificationMode}
use waddle_sdk.Lease.{LeaseState}
use waddle_sdk.Session.Episode.{EpisodeState, ActiveClaim}
use waddle_sdk.Session.Effect.{HandbackThen, AfterLease, PendingLeaseOp}
use waddle_sdk.Session.Context.{Ctx}
use waddle_sdk.Session.Reset.{
  apply_reset_result, window_kind, drop_window, apply_handback, close_reset_window,
  begin_reset_handback,
}
use waddle_sdk.Session.Phases.{post_reset?, resetting?}
use waddle_sdk.Session.Safety.Invariant.{Inv, Keeps}
use waddle_sdk.Session.Safety.Closing.{at_episode, by_episode, close_run-Keeps}
use waddle_sdk.Session.Safety.Resets.{apply_post_reset_result-Keeps, close_timed_out-Keeps}

reset_reported :
    (c : Ctx) (e : EpisodeState) (at : MonoNs) (m : ResetVerificationMode) (result : Bool)
    (verified : Option Bool)
    → resetting? e.phase ≡ true
    → is_none e.reset_window ≡ true
    → Inv (at_episode c (some (record e { verification = m }))).s
    → Keeps (
        apply_reset_result (at_episode c (some (record e { verification = m }))) at result verified)
unfolding apply_reset_result
reset_reported c e at m false verified p w v = close_run-Keeps _ _ at _ _ _ true refl (ground arith)
reset_reported c e at ResetVerificationMode.blocking true none p w v = ground arith
reset_reported c e at ResetVerificationMode.blocking true (some true) p w v = ground arith
reset_reported c e at ResetVerificationMode.blocking true (some false) p w v = ground arith
reset_reported c e at ResetVerificationMode.optimistic_async true none p w v = ground arith
reset_reported c e at ResetVerificationMode.optimistic_async true (some true) p w v = ground arith
reset_reported c e at ResetVerificationMode.optimistic_async true (some false) p w v = ground arith

pub apply_reset_result-Keeps :
    (c : Ctx) (e : EpisodeState) (at : MonoNs) (result : Bool) (verified : Option Bool)
    → c.s.episode ≡ some e
    → resetting? e.phase ≡ true
    → is_none e.reset_window ≡ true
    → Inv c.s
    → Keeps (apply_reset_result c at result verified)
apply_reset_result-Keeps c e at result verified q p w =
    by_episode (λ x. Inv x.s → Keeps (apply_reset_result x at result verified)) c e q
      (reset_reported c e at e.verification result verified p w)

-- The state after a window is dropped.
record Dropped (c : Ctx) (e : EpisodeState) (d : Ctx) : Type 0 where
  episode : d.s.episode ≡ some (record e { reset_window = none })
  claim : d.s.claim ≡ none
  lease : d.s.lease ≡ c.s.lease
  pending_lease : d.s.pending_lease ≡ c.s.pending_lease
  engage_stage : d.s.engage_stage ≡ c.s.engage_stage

abbrev Drops : Ctx → EpisodeState → Outcome Ctx → Type 0
Drops c e (done d) = Dropped c e d
Drops c e (rejected reason) = ⊥
Drops c e (panicked m) = ⊥

abbrev at_parts : Ctx → EpisodeState → GateMode → Option ActiveClaim → Ctx
at_parts c e gate_mode claim = record c {
  s = record (c.s) { episode = some e; gate_mode = gate_mode; claim = claim };
}

drop_parts :
    (c : Ctx) (e : EpisodeState) (at : MonoNs) (g : GateMode) (k : Option ActiveClaim)
    → Drops (at_parts c e g k) e (drop_window (at_parts c e g k) at)
unfolding drop_window
drop_parts c e at GateMode.reset none = ground arith
drop_parts c e at GateMode.reset (some k) = ground arith
drop_parts c e at _ none = ground arith
drop_parts c e at _ (some k) = ground arith

after_drop :
    (c : Ctx) (e : EpisodeState) (r : Outcome Ctx) (f : Ctx → Outcome Ctx)
    → Drops c e r
    → ((d : Ctx) → Dropped c e d → Keeps (f d))
    → Keeps (r >>= f)
after_drop c e (done d) f h k = k d h
after_drop c e (rejected reason) f h k = absurd h
after_drop c e (panicked m) f h k = absurd h

-- What the state must be for `next` to apply to it.
abbrev pub HandbackFits : EpisodeState → HandbackThen → Type 0
HandbackFits e (HandbackThen.apply_pre_result result verified) =
    (resetting? e.phase ≡ true) × (is_some e.reset_window ≡ true)
HandbackFits e (HandbackThen.apply_post_result result) = post_reset? e.phase ≡ true
HandbackFits e HandbackThen.timeout_close = Unit

-- No PRE result waits for the lease.
abbrev pub no_pre_handback : Option PendingLeaseOp → Bool
no_pre_handback (some p) = elim p.next [
  | AfterLease.reset_handback next ↦ elim next [
    | HandbackThen.apply_pre_result result verified ↦ false
    | _ ↦ true
  ]
  | _ ↦ true
]
no_pre_handback none = true

handback_dropped :
    (c d : Ctx) (e : EpisodeState) (at : MonoNs) (next : HandbackThen)
    → Inv (at_episode c (some e)).s
    → no_pre_handback c.s.pending_lease ≡ true
    → HandbackFits e next
    → Dropped (at_episode c (some e)) e d
    → Keeps (apply_handback d at (window_kind e.reset_window) next)
unfolding apply_handback
handback_dropped c d e at (HandbackThen.apply_pre_result result verified) v p f h =
    apply_reset_result-Keeps d _ at result verified h.episode f.0 refl (ground arith)
handback_dropped c d e at (HandbackThen.apply_post_result result) v p f h =
    apply_post_reset_result-Keeps d _ at result _ h.episode (ground arith) refl
handback_dropped c d e at HandbackThen.timeout_close v p f h =
    by_episode
      (λ x. Keeps (apply_handback x at (window_kind e.reset_window) HandbackThen.timeout_close)) d _
      h.episode (close_timed_out-Keeps d _ at (window_kind e.reset_window) (ground arith) refl)

pub close_reset_window-Keeps :
    (c : Ctx) (e : EpisodeState) (at : MonoNs) (next : HandbackThen)
    → c.s.episode ≡ some e
    → no_pre_handback c.s.pending_lease ≡ true
    → HandbackFits e next
    → Inv c.s
    → Keeps (close_reset_window c at next)
unfolding close_reset_window
close_reset_window-Keeps c e at next q p f =
    by_episode (λ x. Inv x.s → Keeps (close_reset_window x at next)) c e q
      λ v.
        after_drop _ e _ _ (drop_parts c e at c.s.gate_mode c.s.claim)
          λ d h. handback_dropped c d e at next v p f h

handback_begun :
    (c : Ctx) (e : EpisodeState) (at : MonoNs) (next : HandbackThen) (l : LeaseState)
    → HandbackFits e next
    → Inv (record (c.s) { episode = some e; lease = l })
    → Keeps (
        begin_reset_handback
          (record c { s = record (c.s) { episode = some e; lease = l } })
          at
          next)
unfolding begin_reset_handback
handback_begun c e at next LeaseState.vacant f v = ground (
  arith,
  close_reset_window-Keeps
      (record c { s = record (c.s) { episode = some e; lease = LeaseState.vacant } }) e at next
      refl,
)
handback_begun c e at next (LeaseState.held lease client) f v = ground (
  arith,
  close_reset_window-Keeps
      (record c { s = record (c.s) { episode = some e; lease = LeaseState.held lease client } }) e
      at next refl,
)

pub begin_reset_handback-Keeps :
    (c : Ctx) (e : EpisodeState) (at : MonoNs) (next : HandbackThen)
    → c.s.episode ≡ some e
    → HandbackFits e next
    → Inv c.s
    → Keeps (begin_reset_handback c at next)
begin_reset_handback-Keeps c e at next q f =
    by_episode (λ x. Inv x.s → Keeps (begin_reset_handback x at next)) c e q
      (handback_begun c e at next c.s.lease f)
