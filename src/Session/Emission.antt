-- ===== src/Session/Emission.antt =====
-- The `EpisodeEvent`s that the machine emits: emit.rs of waddle-core/crates/waddle-fsm/src. A
-- message of the protocol keeps the fields that its builder sets; fields that a builder always
-- leaves empty are left out. A `f64` is carried as its bit pattern and never computed with.
use waddle_sdk.Prelude.{ℕ, Bool, Option, none, some, List, String}
use waddle_sdk.Prelude.Int.{ℤ}
use waddle_sdk.Types.Time.{MonoNs}
use waddle_sdk.Types.Actor.{ActorKind, ActorRef}
use waddle_sdk.Types.{
  ClientId, LeaseId, EpisodeId, ClaimId, Verb, LeaseEnforcement, GrantStatus, TerminalOutcome,
  EpisodeStateKind, InterventionPhase, GateMode, ResetVerificationMode, ResetKind,
}
use waddle_sdk.Session.Episode.{ActiveClaim}

pub data FaultKind : Type 0 where
  estop envelope_reject lease_denied command_stale hardware_fault ik_unreachable : FaultKind
  perception_not_found verifier_fail precondition_fail calibration_stale timeout : FaultKind
  adapter_error validation_error approval_denied : FaultKind

pub data ClaimEventKind : Type 0 where
  requested granted denied released : ClaimEventKind

pub data LeaseEventKind : Type 0 where
  acquired denied handed_off revoked_all : LeaseEventKind

pub data ResetWindowEventKind : Type 0 where
  opened engaged completed timed_out cancelled : ResetWindowEventKind

pub data MarkKind : Type 0 where
  start end_success end_failure end_abort retake : MarkKind

pub data Body : Type 0 where
  state :
      (from : Option EpisodeStateKind) (to : EpisodeStateKind) (reason : String)
      (outcome : Option TerminalOutcome)
      → Body
  claim :
      (kind : ClaimEventKind) (claim_id : ClaimId) (episode_id : EpisodeId) (actor : ActorRef)
      (source_name : String) (self_initiated : Bool) (detail : String)
      → Body
  lease :
      (kind : LeaseEventKind) (lease : Option (LeaseId × ClientId)) (enforcement : LeaseEnforcement)
      (detail : String)
      → Body
  intervention : (phase : InterventionPhase) (claim_id : ClaimId) → Body
  tripwire : (name : String) (requested_verb : Verb) (detail : String) → Body
  fault : (kind : FaultKind) (source detail : String) → Body
  gate : (from to : GateMode) (reason : String) → Body
  dual_write :
      (divergence_metric : ℕ) (window_ns : ℤ) (trace_ref : String) (action_taken : Verb) → Body
  grant : (verb : Verb) (from to : GrantStatus) (reason : String) (effective_t_ns : MonoNs) → Body
  reset_verification : (mode : ResetVerificationMode) (verified invalidated_async : Bool) → Body
  judgment : (judge_id : String) (passed : Option Bool) → Body
  post_reset : (ok : Bool) (detail : String) (pinned_outcome : TerminalOutcome) → Body
  reset_window :
      (kind : ResetWindowEventKind) (reset : ResetKind) (prompt : String)
      (expected_actor : ActorKind) (claim_id : String) (result : Option (Bool × String))
      → Body
  agent_invite : (prompt : String) (timeout_ns : ℤ) (task_metadata : List (String × String)) → Body
  mark : (kind : MarkKind) → Body

pub record EpisodeEvent : Type 0 where
  pub t_ns : MonoNs
  pub episode_id : String
  pub event : Body

abbrev or_empty : Option EpisodeId → String
or_empty none = ""
or_empty (some e) = e

-- `base` with the body set.
unfoldable pub event_of : MonoNs → Option EpisodeId → Body → EpisodeEvent
event_of at episode body = record { t_ns = at; episode_id = or_empty episode; event = body }

-- `claim_event`: the claim is copied whole, its actor included.
unfoldable pub claim_event :
    MonoNs → EpisodeId → ClaimEventKind → ActiveClaim → String → EpisodeEvent
unfolding event_of
claim_event at episode kind c detail =
    event_of at (some episode)
      (Body.claim kind c.id episode c.actor c.source c.self_initiated detail)
