-- ===== src/Session/Context.antt =====
-- The step context of session.rs: `Ctx`, its emissions, and the block that closes a run.
use waddle_sdk.Prelude.{
  ℕ, ◌+◌, Bool, false, ◌&&◌, not, Option, none, some, List, [], ◌∷◌, ◌++◌, map, String,
  if◌then◌else◌,
}
use waddle_sdk.Outcome.{Outcome, done, expect, ◌>>=◌}
use waddle_sdk.Types.Time.{MonoNs}
use waddle_sdk.Types.{EpisodeId, Verb, GrantStatus, TerminalOutcome, GateMode, same_mode}
use waddle_sdk.GrantHealth.{u32, GrantHealthEntry, apply_pending}
use waddle_sdk.Session.Episode.{Phase, EpisodeState, kind}
use waddle_sdk.Session.Emission.{Body, ClaimEventKind, EpisodeEvent, event_of, claim_event}
use waddle_sdk.Session.Effect.{TimerId, Effect}
use waddle_sdk.Session.State.{SessionConfig, SessionFsm}

pub record Ctx : Type 0 where
  pub cfg : SessionConfig
  pub s : SessionFsm
  pub effects : List Effect
  pub plan_inputs_at_entry : GateMode × Bool

unfoldable pub push : Ctx → Effect → Ctx
push c e = record c { effects = c.effects ++ e ∷ [] }

-- What a row of `emit` calls adds to the count of events buffered during a partition.
abbrev pub buffered : Bool → ℕ → List EpisodeEvent → ℕ
buffered connected n [] = n
buffered connected n (ev ∷ evs) = buffered connected (if connected then n else u32 (n + 1)) evs

-- `for ev in evs { self.emit(ev) }`.
unfoldable pub emits : Ctx → List EpisodeEvent → Ctx
emits c evs = record c {
  s = record (c.s) { buffered_events = buffered c.s.plane_connected c.s.buffered_events evs };
  effects = c.effects ++ map Effect.emitted evs;
}

unfoldable pub emit : Ctx → EpisodeEvent → Ctx
unfolding emits
emit c ev = emits c (ev ∷ [])

unfoldable pub episode : Ctx → Outcome EpisodeState
episode c = expect c.s.episode "guarded by caller"

-- `self.episode_mut()` and a write through it.
unfoldable pub update_episode : Ctx → (EpisodeState → EpisodeState) → Outcome Ctx
unfolding episode
update_episode c f = do e ← episode c; done (record c { s = record (c.s) { episode = some (f e) } })

abbrev pub episode_id : Option EpisodeState → Option EpisodeId
episode_id none = none
episode_id (some e) = some e.id

unfoldable pub set_gate : Ctx → MonoNs → GateMode → String → Outcome Ctx
unfolding episode emit push event_of
set_gate c at to reason = if same_mode c.s.gate_mode to then done c else do
  let c1 = record c { s = record (c.s) { gate_mode = to } }
  e ← episode c1
  done (
      push (emit c1 (event_of at (some e.id) (Body.gate c.s.gate_mode to reason)))
        (Effect.set_gate_mode to))

unfoldable pub transition : Ctx → MonoNs → Phase → String → Option TerminalOutcome → Outcome Ctx
unfolding episode update_episode emit event_of kind
transition c at to reason outcome = do
  e ← episode c
  c1 ← update_episode c (λ e1. record e1 { phase = to })
  done (
      emit c1 (event_of at (some e.id) (Body.state (some (kind e.phase)) (kind to) reason outcome)))

-- `self.s.claim.take()` with its `claim{RELEASED}` emission, where there is a claim.
unfoldable pub take_claim : Ctx → MonoNs → String → Outcome Ctx
unfolding episode emit claim_event
take_claim c at reason = elim c.s.claim [
  | none ↦ done c
  | some k ↦ do
    let c1 = record c { s = record (c.s) { claim = none } }
    e ← episode c1
    done (emit c1 (claim_event at e.id ClaimEventKind.released k reason))
]

-- The entries after `apply_pending`, and the changes that it reports.
unfoldable pub demote_pending : List GrantHealthEntry → List GrantHealthEntry
unfolding apply_pending
demote_pending [] = []
demote_pending (g ∷ gs) = (apply_pending g).0 ∷ demote_pending gs

unfoldable pub pending_changes : List GrantHealthEntry → List (Verb × String)
unfolding apply_pending
pending_changes [] = []
pending_changes (g ∷ gs) =
    let rest = pending_changes gs in
    elim (apply_pending g).1 [ none ↦ rest | some reason ↦ (g.verb, reason) ∷ rest ]

unfoldable pub apply_pending_demotions : Ctx → MonoNs → Ctx
unfolding emits event_of demote_pending pending_changes
apply_pending_demotions c at =
    let changes = pending_changes c.s.grants in
    let c1 = record c { s = record (c.s) { grants = demote_pending c.s.grants } } in
    emits c1 (
      map
        (λ ch.
          event_of at (episode_id c.s.episode)
            (Body.grant ch.0 GrantStatus.active GrantStatus.demoted ch.1 at))
        changes)

-- The central run-closing block.
unfoldable pub close_run :
    Ctx → MonoNs → Phase → String → Option TerminalOutcome → Bool → Outcome Ctx
unfolding set_gate transition take_claim push apply_pending_demotions
close_run c at to reason outcome release_claim = do
  c1 ←
      (if release_claim && not (same_mode c.s.gate_mode GateMode.passthrough)
        then set_gate c at GateMode.passthrough reason
        else done c)
  c2 ← transition c1 at to reason outcome
  c3 ← (if release_claim then take_claim c2 at reason else done c2)
  let c4 = push c3 (Effect.cancel_timer TimerId.engage_timeout)
  let c5 = push c4 (Effect.cancel_timer TimerId.chunk_boundary_cap)
  let c6 = push c5 (Effect.cancel_timer TimerId.reset_window_timeout)
  let c7 = push c6 (Effect.cancel_timer TimerId.agent_invite_timeout)
  let c8 = record c7 {
    s = record (c7.s) { engage_stage = none; engage_timed_out = false; pending_lease = none };
  }
  done (apply_pending_demotions c8 at)

unfoldable pub enter_terminal : Ctx → MonoNs → TerminalOutcome → String → Bool → Outcome Ctx
unfolding close_run
enter_terminal c at outcome reason release_claim =
    close_run c at (Phase.terminal outcome) reason (some outcome) release_claim
