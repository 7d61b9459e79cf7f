-- ===== src/Session/Handlers/Takeover.antt =====
-- Handlers of session.rs's `step` for the intervention: E7 to E9, verb results and the gate rows
-- of FSM.md §6.
use waddle_sdk.Prelude.{
  Bool, true, false, ◌&&◌, ◌||◌, not, Option, none, some, ◌==◌, is_some, if◌then◌else◌,
}
use waddle_sdk.Outcome.{Outcome, done, rejected, ◌>>=◌}
use waddle_sdk.Types.Time.{MonoNs}
use waddle_sdk.Types.{
  EpisodeId, ClaimId, Verb, same_verb, TerminalOutcome, GateMode, same_mode, InterventionPhase,
  ResetVerificationMode,
}
use waddle_sdk.Types.Actor.{ActorKind}
use waddle_sdk.Session.Episode.{ActiveClaim}
use waddle_sdk.Session.Emission.{Body, FaultKind, event_of}
use waddle_sdk.Session.Effect.{TimerId, Effect}
use waddle_sdk.Session.State.{is_await_hold_ok, is_await_chunk_boundary}
use waddle_sdk.Session.Phases.{is_running, is_settle, is_engage, is_intervention}
use waddle_sdk.Session.Context.{Ctx, push, emit, episode, episode_id, set_gate, enter_terminal}
use waddle_sdk.Session.Engage.{mint_engage_handoff, begin_engage, begin_release}

-- The session's claim is the claim of that id.
abbrev pub holds_claim : Option ActiveClaim → ClaimId → Bool
holds_claim none id = false
holds_claim (some k) id = k.id == id

-- E7.
unfoldable pub on_engage : Ctx → ClaimId → MonoNs → Outcome Ctx
unfolding begin_engage
on_engage c claim at =
    if not (is_running c.s.episode)
    then rejected "engage outside RUNNING (E7)"
    else elim c.s.claim [
      | some k ↦
          if k.id == claim
          then begin_engage c at
          else rejected "engage for a claim that is not active"
      | none ↦ rejected "engage without a granted claim"
    ]

unfoldable pub on_chunk_boundary_reached : Ctx → MonoNs → Outcome Ctx
unfolding push mint_engage_handoff
on_chunk_boundary_reached c at =
    if is_await_chunk_boundary c.s.engage_stage
    then mint_engage_handoff (push c (Effect.cancel_timer TimerId.chunk_boundary_cap))
    else done c

-- E8.
unfoldable pub on_release : Ctx → ClaimId → MonoNs → Outcome Ctx
unfolding begin_release
on_release c claim at =
    if not (is_settle c.s.episode)
    then rejected "release outside SETTLE (E8)"
    else if holds_claim c.s.claim claim
    then begin_release c at
    else rejected "release for a claim that is not active"

-- N12: the initiator decides who waits for the successor's verification.
unfoldable pub retake_mode : ActorKind → ResetVerificationMode
retake_mode ActorKind.teleoperator = ResetVerificationMode.optimistic_async
retake_mode ActorKind.site_operator = ResetVerificationMode.optimistic_async
retake_mode ActorKind.agent = ResetVerificationMode.blocking
retake_mode ActorKind.policy = ResetVerificationMode.blocking
retake_mode ActorKind.system = ResetVerificationMode.blocking
retake_mode ActorKind.custom = ResetVerificationMode.blocking

-- The effects of a legal retake: the claim survives.
unfoldable pub retake_now : Ctx → ClaimId → ActorKind → EpisodeId → MonoNs → Outcome Ctx
unfolding episode emit push event_of enter_terminal retake_mode
retake_now c claim initiator successor at = do
  e ← episode c
  let c1 = emit c (event_of at (some e.id) (Body.intervention InterventionPhase.retake claim))
  c2 ← enter_terminal c1 at TerminalOutcome.aborted_retake "retake" false
  done (push c2 (Effect.open_successor e.id successor claim true (retake_mode initiator)))

-- E9.
unfoldable pub on_retake : Ctx → ClaimId → ActorKind → EpisodeId → MonoNs → Outcome Ctx
unfolding retake_now
on_retake c claim initiator successor at =
    if not (is_settle c.s.episode || (is_engage c.s.episode && c.s.engage_timed_out))
    then rejected "retake is legal from SETTLE (or ENGAGE after the settle timeout)"
    else if not (holds_claim c.s.claim claim)
    then rejected "retake for a claim that is not active"
    else retake_now c claim initiator successor at

abbrev or_adapter_error : Option FaultKind → FaultKind
or_adapter_error none = FaultKind.adapter_error
or_adapter_error (some f) = f

abbrev is_lease_denied : Option FaultKind → Bool
is_lease_denied (some FaultKind.lease_denied) = true
is_lease_denied _ = false

unfoldable pub on_verb_result : Ctx → Verb → Bool → Option FaultKind → MonoNs → Outcome Ctx
unfolding mint_engage_handoff episode emit event_of
on_verb_result c verb result fault at =
    if is_await_hold_ok c.s.engage_stage && same_verb verb Verb.hold
    then (if result then mint_engage_handoff c else do
      e ← episode c
      done (
          emit c (
            event_of at (some e.id) (
              Body.fault (or_adapter_error fault) "engage"
                "hold failed during HOLD_FIRST engage; writers remain stopped"))))
    else if not result && is_lease_denied fault
    then done (
        emit c (
          event_of at (episode_id c.s.episode)
            (Body.fault FaultKind.lease_denied "verb" "send from non-holder; pause signal")))
    else done c

-- INTERVENTION and BYPASS.
unfoldable pub on_stall_detected : Ctx → MonoNs → Outcome Ctx
unfolding set_gate
on_stall_detected c at =
    if same_mode c.s.gate_mode GateMode.intervention
      && (is_some c.s.claim && is_intervention c.s.episode)
    then set_gate c at GateMode.bypass "caller loop stalled while claimed"
    else done c

unfoldable pub on_ticks_resumed : Ctx → MonoNs → Outcome Ctx
unfolding set_gate
on_ticks_resumed c at =
    if same_mode c.s.gate_mode GateMode.bypass
    then set_gate c at GateMode.intervention "caller ticks resumed"
    else done c
