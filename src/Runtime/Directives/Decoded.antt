-- ===== src/Runtime/Directives/Decoded.antt =====
-- What a message of the plane says, for pumps.rs: the events of the machine that it stands for.
use waddle_sdk.Prelude.{false, Option, none, some, List, [], ◌∷◌, String, ◌==◌, if◌then◌else◌}
use waddle_sdk.Types.Time.{MonoNs}
use waddle_sdk.Types.Actor.{ActorKind, ActorRef, of_kind}
use waddle_sdk.Types.{EpisodeId, TerminalOutcome}
use waddle_sdk.Session.Event.{SessionEvent}
use waddle_sdk.Runtime.Directives.{
  ClaimDirectiveKind, ResetWindowDirectiveKind, AgentTaskKind, ResetProgressPhase, WireClaim,
  ResetResult, ServerMsg,
}

-- Whoever is not named is an anonymous teleoperator.
unfoldable pub claimant : Option ActorRef → ActorRef
unfolding of_kind
claimant (some a) = a
claimant none = of_kind ActorKind.teleoperator

unfoldable pub claim_events :
    ClaimDirectiveKind → WireClaim → EpisodeId → MonoNs → List SessionEvent
unfolding claimant
claim_events ClaimDirectiveKind.grant c successor at =
    SessionEvent.claim_granted c.claim_id c.source_name (claimant c.actor) c.self_initiated at
    ∷ SessionEvent.engage c.claim_id at
    ∷ []
claim_events ClaimDirectiveKind.release c successor at = SessionEvent.release c.claim_id at ∷ []
claim_events ClaimDirectiveKind.retake c successor at =
    SessionEvent.retake c.claim_id (claimant c.actor).kind successor at ∷ []
claim_events ClaimDirectiveKind.unknown_claim c successor at = []

-- A cancelled window is one that failed, and a completed one needs a result.
unfoldable pub window_events :
    ResetWindowDirectiveKind → WireClaim → Option ResetResult → MonoNs → List SessionEvent
unfolding claimant
window_events ResetWindowDirectiveKind.engage c result at =
    SessionEvent.claim_granted c.claim_id c.source_name (claimant c.actor) c.self_initiated at
    ∷ SessionEvent.reset_window_engage c.claim_id at
    ∷ []
window_events ResetWindowDirectiveKind.complete c (some (succeeded, verified)) at =
    SessionEvent.reset_window_complete c.claim_id succeeded verified at ∷ []
window_events ResetWindowDirectiveKind.cancel c result at =
    SessionEvent.reset_window_complete c.claim_id false none at ∷ []
window_events ResetWindowDirectiveKind.complete c none at = []
window_events ResetWindowDirectiveKind.unknown_window c result at = []

-- A denial counts for the active episode only.
abbrev pub denial_events :
    AgentTaskKind → Option EpisodeId → String → String → MonoNs → List SessionEvent
denial_events AgentTaskKind.denied (some active) episode_id detail at =
    if active == episode_id then SessionEvent.agent_task_denied detail at ∷ [] else []
denial_events _ _ episode_id detail at = []

abbrev pub progress_events : ResetProgressPhase → Option ResetResult → MonoNs → List SessionEvent
progress_events ResetProgressPhase.done (some (succeeded, verified)) at =
    SessionEvent.reset_result succeeded verified at ∷ []
progress_events _ _ at = []

unfoldable pub decoded : Option EpisodeId → EpisodeId → MonoNs → ServerMsg → List SessionEvent
unfolding claim_events window_events
decoded active successor at (ServerMsg.claim kind (some c)) = claim_events kind c successor at
decoded active successor at (ServerMsg.episode (some outcome) reason) =
    SessionEvent.terminate outcome reason at ∷ []
decoded active successor at (ServerMsg.episode none reason) =
    SessionEvent.terminate TerminalOutcome.abort reason at ∷ []
decoded active successor at (ServerMsg.reset_window kind (some c) result) =
    window_events kind c result at
decoded active successor at (ServerMsg.agent_update s) =
    denial_events s.kind active s.episode_id s.detail at
decoded active successor at (ServerMsg.heartbeat_ack []) = []
decoded active successor at (ServerMsg.heartbeat_ack (c ∷ cs)) =
    SessionEvent.heartbeat_ack (c ∷ cs) at ∷ []
decoded active successor at (ServerMsg.reset_progress s result) = progress_events s.phase result at
decoded active successor at (ServerMsg.claim kind none) = []
decoded active successor at (ServerMsg.reset_window kind none result) = []
