-- ===== src/Session/Episode.antt =====
-- episode.rs, claim.rs and the window and invite records of event.rs of waddle-core/crates/waddle-fsm/src.
use waddle_sdk.Prelude.{Bool, true, false, ◌&&◌, not, Option, none, some, List, String}
use waddle_sdk.Prelude.Int.{ℤ}
use waddle_sdk.Types.{
  ClientId, EpisodeId, ClaimId, TerminalOutcome, EpisodeStateKind, InterventionPhase,
  ResetVerificationMode, ResetKind,
}
use waddle_sdk.Types.Actor.{ActorKind, ActorRef, ProvenanceTag, for_claim}

pub data Phase : Type 0 where
  resetting ready running : Phase
  intervention : InterventionPhase → Phase
  terminal : TerminalOutcome → Phase
  post_reset : Phase

unfoldable pub kind : Phase → EpisodeStateKind
kind Phase.resetting = EpisodeStateKind.resetting
kind Phase.ready = EpisodeStateKind.ready
kind Phase.running = EpisodeStateKind.running
kind (Phase.intervention p) = EpisodeStateKind.intervention
kind (Phase.terminal o) = EpisodeStateKind.terminal
kind Phase.post_reset = EpisodeStateKind.post_reset

abbrev pub is_terminal : Phase → Bool
is_terminal (Phase.terminal o) = true
is_terminal _ = false

-- A declared remote reset window.
pub record WindowSpec : Type 0 where
  pub expected : ActorKind
  pub prompt : String
  pub timeout_ns : ℤ

pub record AgentInvite : Type 0 where
  pub prompt : String
  pub timeout_ns : ℤ
  pub task_metadata : List (String × String)

-- A remote reset window that is open.
pub record ResetWindowState : Type 0 where
  pub kind : ResetKind
  pub expected : ActorKind
  pub engaged : Bool
  pub prompt : String

pub record EpisodeState : Type 0 where
  pub id : EpisodeId
  pub phase : Phase
  pub born_claimed : Bool
  pub parent : Option EpisodeId
  pub reset_unverified : Bool
  pub verification : ResetVerificationMode
  pub reset_ok : Bool
  pub verified : Bool
  pub optimistic_entry : Bool
  pub post_reset_declared : Bool
  pub pinned_outcome : Option TerminalOutcome
  pub post_reset_failed : Bool
  pub reset_window : Option ResetWindowState
  pub post_window : Option WindowSpec
  pub agent_invited : Bool
  pub agent_engaged : Bool
  pub invite_aborted : Bool

-- `EpisodeState::open`.
unfoldable pub open_episode :
    EpisodeId → ResetVerificationMode → Bool → Option EpisodeId → EpisodeState
open_episode id verification born_claimed parent = record {
  id = id;
  phase = Phase.resetting;
  born_claimed = born_claimed;
  parent = parent;
  reset_unverified = false;
  verification = verification;
  reset_ok = false;
  verified = false;
  optimistic_entry = false;
  post_reset_declared = false;
  pinned_outcome = none;
  post_reset_failed = false;
  reset_window = none;
  post_window = none;
  agent_invited = false;
  agent_engaged = false;
  invite_aborted = false;
}

abbrev pub before_intervention : Phase → Bool
before_intervention Phase.resetting = true
before_intervention Phase.ready = true
before_intervention Phase.running = true
before_intervention _ = false

unfoldable pub invite_open : EpisodeState → Bool
invite_open e = e.agent_invited && not e.agent_engaged && before_intervention e.phase

-- The active claim.
pub record ActiveClaim : Type 0 where
  pub id : ClaimId
  pub source : String
  pub actor : ActorRef
  pub self_initiated : Bool

-- The actuation identity under which the intervenor's lease is held.
unfoldable pub client : ActiveClaim → ClientId
client c = c.source

-- The tag of every action driven under the claim.
unfoldable pub provenance : ActiveClaim → ProvenanceTag
unfolding for_claim
provenance c = record {
  provenance = for_claim c.actor.kind c.source;
  actor = some c.actor;
  bypass_approval = c.self_initiated;
}
