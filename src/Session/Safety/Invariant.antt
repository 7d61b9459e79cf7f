-- ===== src/Session/Safety/Invariant.antt =====
-- The invariant of the session machine: what lets every `expect` of session.rs succeed.

use waddle_sdk.Prelude.{
  Bool, true, false, ◌&&◌, ◌||◌, not, ◌≡◌, refl, if◌then◌else◌, Option, none, some, is_some,
  is_none,
}
use waddle_sdk.Types.{ClientId, GateMode, same_mode, ResetKind, InterventionPhase}
use waddle_sdk.Lease.{LeaseState}
use waddle_sdk.Session.Episode.{Phase, EpisodeState, ResetWindowState, ActiveClaim, is_terminal}
use waddle_sdk.Session.Effect.{LeaseOpKind, HandbackThen, AfterLease, PendingLeaseOp}
use waddle_sdk.Session.State.{SessionFsm}
use waddle_sdk.Session.Context.{Ctx}
use waddle_sdk.Session.Reset.{window_engaged}
use waddle_sdk.Outcome.{Outcome, done, rejected, panicked, ◌>>=◌}
use waddle_sdk.Session.Phases.{
  is_post_reset, is_intervention, is_engage, is_settle, resetting?, post_reset?,
}

-- The lease is held under the claim's identity.
abbrev pub HeldFor : LeaseState → Option ActiveClaim → Type 0
HeldFor LeaseState.vacant claim = ⊥
HeldFor (LeaseState.held lease client) none = ⊥
HeldFor (LeaseState.held lease client) (some k) = client ≡ k.source

-- A PRE window is open only while the reset has not reported, a POST window only in POST_RESET; a
-- PRE window may outlive its episode's run.
abbrev pub kind_fits : EpisodeState → ResetKind → Bool
kind_fits e ResetKind.pre = resetting? e.phase && not e.reset_ok || is_terminal e.phase
kind_fits e ResetKind.post = post_reset? e.phase

abbrev pub window_fits : EpisodeState → Option ResetWindowState → Bool
window_fits e none = true
window_fits e (some w) = kind_fits e w.kind

abbrev pub pin_fits : EpisodeState → Bool
pin_fits e = not (post_reset? e.phase) || is_some e.pinned_outcome

abbrev pub EpisodeFits : Option EpisodeState → Type 0
EpisodeFits none = Unit
EpisodeFits (some e) = (pin_fits e ≡ true) × (window_fits e e.reset_window ≡ true)

-- The operation in flight is one that the lease allows.
abbrev pub OpFits : LeaseState → LeaseOpKind → Type 0
OpFits LeaseState.vacant (LeaseOpKind.acquire client) = Unit
OpFits (LeaseState.held lease holder) (LeaseOpKind.acquire client) = ⊥
OpFits LeaseState.vacant (LeaseOpKind.handoff from to) = ⊥
OpFits (LeaseState.held lease holder) (LeaseOpKind.handoff from to) = from ≡ lease

abbrev pub target : LeaseOpKind → ClientId
target (LeaseOpKind.acquire client) = client
target (LeaseOpKind.handoff from to) = to

abbrev pub GoesTo : Option ActiveClaim → ClientId → Type 0
GoesTo none client = ⊥
GoesTo (some k) client = client ≡ k.source

abbrev pub releasing? : Phase → Bool
releasing? (Phase.intervention InterventionPhase.release) = true
releasing? _ = false

abbrev pub is_releasing : Option EpisodeState → Bool
is_releasing none = false
is_releasing (some e) = releasing? e.phase

-- The reset is left to an engaged window.
abbrev pub awaits_window : Option EpisodeState → Bool
awaits_window none = false
awaits_window (some e) = resetting? e.phase && window_engaged e.reset_window

abbrev pub is_handoff : LeaseOpKind → Bool
is_handoff (LeaseOpKind.acquire client) = false
is_handoff (LeaseOpKind.handoff from to) = true

abbrev pub NextFits : SessionFsm → LeaseOpKind → AfterLease → Type 0
NextFits s op AfterLease.initial_acquire = Unit
NextFits s op AfterLease.engage_complete = (is_engage s.episode ≡ true) × GoesTo s.claim (target op)
NextFits s op AfterLease.release_complete = is_releasing s.episode ≡ true
NextFits s op AfterLease.reset_engage_complete = Unit
NextFits s op (AfterLease.reset_handback (HandbackThen.apply_pre_result result verified)) =
    (is_handoff op ≡ true) × (awaits_window s.episode ≡ true)
NextFits s op (AfterLease.reset_handback (HandbackThen.apply_post_result result)) =
    is_post_reset s.episode ≡ true
NextFits s op (AfterLease.reset_handback HandbackThen.timeout_close) = is_some s.episode ≡ true

abbrev pub PendingFits : SessionFsm → Option PendingLeaseOp → Type 0
PendingFits s none = Unit
PendingFits s (some p) = OpFits s.lease p.op × NextFits s p.op p.next

pub record Inv (s : SessionFsm) : Type 0 where
  pub claimed : is_some s.claim ≡ true → is_some s.episode ≡ true
  pub gated : same_mode s.gate_mode GateMode.passthrough ≡ false → is_some s.episode ≡ true
  pub asked : is_some s.pending_lease ≡ true → is_some s.episode ≡ true
  pub staged : is_some s.engage_stage ≡ true → is_engage s.episode ≡ true
  pub taken : is_intervention s.episode ≡ true → is_some s.claim ≡ true
  pub settled : is_settle s.episode ≡ true → HeldFor s.lease s.claim
  pub rested : is_settle s.episode ≡ true → is_none s.pending_lease ≡ true
  pub fits : EpisodeFits s.episode
  pub in_flight : PendingFits s s.pending_lease

-- The handler keeps the invariant where it returns, and does not panic.
abbrev pub Keeps : Outcome Ctx → Type 0
Keeps (done d) = Inv d.s
Keeps (rejected reason) = Unit
Keeps (panicked m) = ⊥

pub Keeps-bind :
    (r : Outcome Ctx) (f : Ctx → Outcome Ctx)
    → Keeps r
    → ((d : Ctx) → Inv d.s → Keeps (f d))
    → Keeps (r >>= f)
Keeps-bind (done d) f h k = k d h
Keeps-bind (rejected reason) f h k = tt
Keeps-bind (panicked m) f h k = absurd h

pub Keeps-if :
    (b : Bool) (r q : Outcome Ctx)
    → (b ≡ true → Keeps r)
    → (b ≡ false → Keeps q)
    → Keeps (if b then r else q)
Keeps-if true r q f g = f refl
Keeps-if false r q f g = g refl
