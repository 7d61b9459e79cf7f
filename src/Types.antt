-- ===== src/Types.antt =====
-- The shared vocabulary of waddle-core/crates/waddle-types/src: grants.rs, handoff.rs, outcome.rs
-- and provenance.rs. Identifiers (ids.rs) are texts.
pub mod Time
pub mod Actor
pub mod Chunking
pub mod Wrapping
mod Examples
use waddle_sdk.Prelude.{Bool, true, false, Option, List, String}
use waddle_sdk.Prelude.Int.{ℤ}

-- The newtypes of ids.rs over a text; they are compared and printed, and nothing else.
abbrev pub ClientId : Type 0
ClientId = String

abbrev pub LeaseId : Type 0
LeaseId = String

abbrev pub EpisodeId : Type 0
EpisodeId = String

abbrev pub ClaimId : Type 0
ClaimId = String

pub data Verb : Type 0 where
  send hold resume home estop : Verb

abbrev pub same_verb : Verb → Verb → Bool
same_verb Verb.send Verb.send = true
same_verb Verb.hold Verb.hold = true
same_verb Verb.resume Verb.resume = true
same_verb Verb.home Verb.home = true
same_verb Verb.estop Verb.estop = true
same_verb _ _ = false

pub data LeaseEnforcement : Type 0 where
  enforced advisory : LeaseEnforcement

pub data GrantStatus : Type 0 where
  active demoted revoked : GrantStatus

abbrev pub is_active : GrantStatus → Bool
is_active GrantStatus.active = true
is_active _ = false

abbrev pub is_demoted : GrantStatus → Bool
is_demoted GrantStatus.demoted = true
is_demoted _ = false

-- The interfaces of a SEND grant are not read by the machines that are modelled.
pub record Grant : Type 0 where
  pub verb : Verb
  pub declared_latency_bound_ns : Option ℤ
  pub hardware : Bool

pub data HandoffPolicy : Type 0 where
  immediate : (blend_ns : ℤ) → HandoffPolicy
  chunk_boundary : (max_wait_ns : ℤ) → HandoffPolicy
  hold_first : HandoffPolicy

pub data TerminalOutcome : Type 0 where
  success failure abort aborted_retake : TerminalOutcome

pub data EpisodeStateKind : Type 0 where
  resetting ready running intervention terminal post_reset : EpisodeStateKind

pub data InterventionPhase : Type 0 where
  engage settle release retake : InterventionPhase

pub data GateMode : Type 0 where
  passthrough intervention bypass reset : GateMode

abbrev pub same_mode : GateMode → GateMode → Bool
same_mode GateMode.passthrough GateMode.passthrough = true
same_mode GateMode.intervention GateMode.intervention = true
same_mode GateMode.bypass GateMode.bypass = true
same_mode GateMode.reset GateMode.reset = true
same_mode _ _ = false

pub data ResetVerificationMode : Type 0 where
  blocking optimistic_async : ResetVerificationMode

pub data ResetKind : Type 0 where
  pre post : ResetKind
