-- ===== src/Session/Event.antt =====
-- event.rs of waddle-core/crates/waddle-fsm/src: the inputs of the session machine.
use waddle_sdk.Prelude.{ℕ, Bool, Option, none, some, List, String}
use waddle_sdk.Prelude.Int.{ℤ}
use waddle_sdk.Types.Time.{MonoNs}
use waddle_sdk.Types.Actor.{ActorKind, ActorRef}
use waddle_sdk.Types.{
  LeaseId, EpisodeId, ClaimId, Verb, GrantStatus, TerminalOutcome, ResetVerificationMode,
}
use waddle_sdk.GrantHealth.{ProxySample}
use waddle_sdk.Session.Episode.{WindowSpec, AgentInvite}
use waddle_sdk.Session.Emission.{FaultKind, MarkKind}
use waddle_sdk.Session.Effect.{TimerId}

unfoldable pub terminal_outcome : MarkKind → Option TerminalOutcome
terminal_outcome MarkKind.end_success = some TerminalOutcome.success
terminal_outcome MarkKind.end_failure = some TerminalOutcome.failure
terminal_outcome MarkKind.end_abort = some TerminalOutcome.abort
terminal_outcome MarkKind.start = none
terminal_outcome MarkKind.retake = none

pub data RejectReason : Type 0 where
  dims : (got want : ℕ) → RejectReason
  not_executable : String → RejectReason
  inert_steps_skipped : (skipped total : ℕ) → RejectReason

pub record GrantChangeDirective : Type 0 where
  pub verb : Verb
  pub to : GrantStatus
  pub reason : String

-- The fields of `EpisodeOpen` but its time.
pub record OpenRequest : Type 0 where
  pub id : EpisodeId
  pub verification : ResetVerificationMode
  pub born_claimed : Bool
  pub parent : Option EpisodeId
  pub post_reset : Bool
  pub pre_window : Option WindowSpec
  pub post_window : Option WindowSpec
  pub agent_invite : Option AgentInvite

pub data SessionEvent : Type 0 where
  episode_open : (request : OpenRequest) (at : MonoNs) → SessionEvent
  reset_result : (ok : Bool) (verified : Option Bool) (at : MonoNs) → SessionEvent
  verification_result : (verified invalidated_async : Bool) (at : MonoNs) → SessionEvent
  start : (at : MonoNs) → SessionEvent
  gate_tick : (at : MonoNs) → SessionEvent
  claim_requested :
      (id : ClaimId) (source : String) (actor : ActorRef) (self_initiated : Bool) (at : MonoNs)
      → SessionEvent
  claim_granted :
      (id : ClaimId) (source : String) (actor : ActorRef) (self_initiated : Bool) (at : MonoNs)
      → SessionEvent
  claim_released : (id : ClaimId) (at : MonoNs) → SessionEvent
  engage : (claim : ClaimId) (at : MonoNs) → SessionEvent
  chunk_boundary_reached : (at : MonoNs) → SessionEvent
  release : (claim : ClaimId) (at : MonoNs) → SessionEvent
  retake :
      (claim : ClaimId) (initiator : ActorKind) (successor : EpisodeId) (at : MonoNs) → SessionEvent
  clutch : (engaged : Bool) (at : MonoNs) → SessionEvent
  verb_result : (verb : Verb) (ok : Bool) (fault : Option FaultKind) (at : MonoNs) → SessionEvent
  lease_token_minted : (minted : LeaseId) (at : MonoNs) → SessionEvent
  estop : (at : MonoNs) → SessionEvent
  terminate : (outcome : TerminalOutcome) (reason : String) (at : MonoNs) → SessionEvent
  judge_result : (judge_id : String) (passed : Option Bool) (at : MonoNs) → SessionEvent
  mark : (kind : MarkKind) (at : MonoNs) → SessionEvent
  proxy_signals : (sample : ProxySample) (at : MonoNs) → SessionEvent
  heartbeat_ack : (grant_changes : List GrantChangeDirective) (at : MonoNs) → SessionEvent
  partition_start : (at : MonoNs) → SessionEvent
  partition_end : (at : MonoNs) → SessionEvent
  timer_fired : (id : TimerId) (at : MonoNs) → SessionEvent
  stall_detected : (at : MonoNs) → SessionEvent
  ticks_resumed : (at : MonoNs) → SessionEvent
  dual_write :
      (divergence_metric : ℕ) (window_ns : ℤ) (trace_ref : String) (at : MonoNs) → SessionEvent
  intervention_rejected : (source : String) (reason : RejectReason) (at : MonoNs) → SessionEvent
  post_reset_result : (ok : Bool) (detail : String) (at : MonoNs) → SessionEvent
  reset_window_engage : (claim : ClaimId) (at : MonoNs) → SessionEvent
  reset_window_complete :
      (claim : ClaimId) (ok : Bool) (verified : Option Bool) (at : MonoNs) → SessionEvent
  agent_task_denied : (detail : String) (at : MonoNs) → SessionEvent
