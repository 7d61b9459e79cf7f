-- ===== src/Session/Safety/Closing.antt =====
-- What the run-closing block of session.rs leaves behind.
use waddle_sdk.Prelude.{
  Bool, true, false, ◌≡◌, sym, subst, if◌then◌else◌, Option, none, some, String, arith,
}
use waddle_sdk.Outcome.{Outcome, done, rejected, panicked, ◌>>=◌}
use waddle_sdk.Types.Time.{MonoNs}
use waddle_sdk.Types.{TerminalOutcome, GateMode, ResetKind}
use waddle_sdk.Session.Episode.{Phase, EpisodeState, ActiveClaim, ResetWindowState}
use waddle_sdk.Session.Context.{Ctx, push, close_run}
use waddle_sdk.Session.Effect.{Effect}
use waddle_sdk.Session.Safety.Invariant.{Inv, Keeps, Keeps-bind}

abbrev pub at_episode : Ctx → Option EpisodeState → Ctx
at_episode c o = record c { s = record (c.s) { episode = o } }

-- A fact about a context whose episode is `some e`, from the fact about such contexts by form.
pub by_episode :
    (P : Ctx → Type 0) (c : Ctx) (e : EpisodeState)
    → c.s.episode ≡ some e
    → P (at_episode c (some e))
    → P c
by_episode P c e p h = subst (λ o. P (at_episode c o)) (sym p) h

-- The state after the block: only the phase of the episode changed, nothing is in flight, and the
-- claim and the gate are released where they were to be.
pub record Closed (e : EpisodeState) (to : Phase) (release_claim : Bool) (c d : Ctx) : Type 0 where
  pub episode : d.s.episode ≡ some (record e { phase = to })
  pub lease : d.s.lease ≡ c.s.lease
  pub pending_lease : d.s.pending_lease ≡ none
  pub engage_stage : d.s.engage_stage ≡ none
  pub claim : d.s.claim ≡ (if release_claim then none else c.s.claim)
  pub gate_mode : d.s.gate_mode ≡ (if release_claim then GateMode.passthrough else c.s.gate_mode)
  pub inputs : d.plan_inputs_at_entry ≡ c.plan_inputs_at_entry
  pub cfg : d.cfg ≡ c.cfg

abbrev pub Closes : EpisodeState → Phase → Bool → Ctx → Outcome Ctx → Type 0
Closes e to release_claim c (done d) = Closed e to release_claim c d
Closes e to release_claim c (rejected reason) = ⊥
Closes e to release_claim c (panicked m) = ⊥

abbrev at_parts : Ctx → EpisodeState → GateMode → Option ActiveClaim → Ctx
at_parts c e gate_mode claim = record c {
  s = record (c.s) { episode = some e; gate_mode = gate_mode; claim = claim };
}

module _ (c : Ctx) (e : EpisodeState) (at : MonoNs) (to : Phase) (reason : String)
    (outcome : Option TerminalOutcome) where
  by_parts :
      (release_claim : Bool) (g : GateMode) (k : Option ActiveClaim)
      → Closes e to release_claim
          (at_parts c e g k)
          (close_run (at_parts c e g k) at to reason outcome release_claim)
  unfolding close_run
  by_parts false g k = ground arith
  by_parts true GateMode.passthrough none = ground arith
  by_parts true GateMode.passthrough (some k) = ground arith
  by_parts true _ none = ground arith
  by_parts true _ (some k) = ground arith

  -- The run-closing block always returns, with a closed run.
  pub close_run-Closes :
      (release_claim : Bool)
      → Closes e to release_claim
          (at_episode c (some e))
          (close_run (at_episode c (some e)) at to reason outcome release_claim)
  close_run-Closes release_claim = by_parts release_claim c.s.gate_mode c.s.claim

-- A PRE window or none: what may be left when a run ends.
abbrev pub no_post_window : Option ResetWindowState → Bool
no_post_window none = true
no_post_window (some w) = elim w.kind [ ResetKind.pre ↦ true | ResetKind.post ↦ false ]

pub Closed-Inv :
    (c d : Ctx) (e : EpisodeState) (o : TerminalOutcome) (release_claim : Bool)
    → no_post_window e.reset_window ≡ true
    → Closed e (Phase.terminal o) release_claim c d
    → Inv d.s
Closed-Inv c d e o release_claim w h = ground arith

pub Closes-Keeps :
    (c : Ctx) (e : EpisodeState) (o : TerminalOutcome) (release_claim : Bool) (r : Outcome Ctx)
    → no_post_window e.reset_window ≡ true
    → Closes e (Phase.terminal o) release_claim c r
    → Keeps r
Closes-Keeps c e o release_claim (done d) w h = Closed-Inv c d e o release_claim w h
Closes-Keeps c e o release_claim (rejected reason) w h = absurd h
Closes-Keeps c e o release_claim (panicked m) w h = absurd h

pub after_Closes :
    (c : Ctx) (e : EpisodeState) (to : Phase) (release_claim : Bool) (r : Outcome Ctx)
    (f : Ctx → Outcome Ctx)
    → Closes e to release_claim c r
    → ((d : Ctx) → Closed e to release_claim c d → Keeps (f d))
    → Keeps (r >>= f)
after_Closes c e to release_claim (done d) f h k = k d h
after_Closes c e to release_claim (rejected reason) f h k = absurd h
after_Closes c e to release_claim (panicked m) f h k = absurd h

-- Closing a run into TERMINAL.
pub close_run-Keeps :
    (c : Ctx) (e : EpisodeState) (at : MonoNs) (o : TerminalOutcome) (reason : String)
    (outcome : Option TerminalOutcome) (release_claim : Bool)
    → c.s.episode ≡ some e
    → no_post_window e.reset_window ≡ true
    → Keeps (close_run c at (Phase.terminal o) reason outcome release_claim)
close_run-Keeps c e at o reason outcome release_claim p w =
    by_episode (λ x. Keeps (close_run x at (Phase.terminal o) reason outcome release_claim)) c e p
      (Closes-Keeps _ e o release_claim _ w
        (close_run-Closes c e at (Phase.terminal o) reason outcome release_claim))

-- The same, with an effect pushed after the block.
pub close_run-push-Keeps :
    (c : Ctx) (e : EpisodeState) (at : MonoNs) (o : TerminalOutcome) (reason : String)
    (outcome : Option TerminalOutcome) (release_claim : Bool) (effect : Effect)
    → c.s.episode ≡ some e
    → no_post_window e.reset_window ≡ true
    → Keeps (
        close_run c at (Phase.terminal o) reason outcome release_claim >>= λ d.
        done (push d effect))
unfolding push
close_run-push-Keeps c e at o reason outcome release_claim effect p w =
    Keeps-bind (close_run c at (Phase.terminal o) reason outcome release_claim)
      (λ d. done (push d effect)) (close_run-Keeps c e at o reason outcome release_claim p w)
      (λ d v. v)
