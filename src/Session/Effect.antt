-- ===== src/Session/Effect.antt =====
-- effect.rs of waddle-core/crates/waddle-fsm/src, and the timers of event.rs.
use waddle_sdk.Prelude.{Bool, Option}
use waddle_sdk.Types.Time.{MonoNs}
use waddle_sdk.Types.{ClientId, LeaseId, EpisodeId, ClaimId, Verb, GateMode, ResetVerificationMode}
use waddle_sdk.Session.Emission.{EpisodeEvent}

pub data TimerId : Type 0 where
  engage_timeout chunk_boundary_cap heartbeat_stale reset_window_timeout : TimerId
  agent_invite_timeout : TimerId

pub data LeaseOpKind : Type 0 where
  acquire : (client : ClientId) → LeaseOpKind
  handoff : (from : LeaseId) (to : ClientId) → LeaseOpKind

-- What applies after a reset window's lease is handed back.
pub data HandbackThen : Type 0 where
  apply_pre_result : (ok : Bool) (verified : Option Bool) → HandbackThen
  apply_post_result : (ok : Bool) → HandbackThen
  timeout_close : HandbackThen

pub data AfterLease : Type 0 where
  initial_acquire engage_complete release_complete reset_engage_complete : AfterLease
  reset_handback : (next : HandbackThen) → AfterLease

-- The field `then` of the source is `next` here.
pub record PendingLeaseOp : Type 0 where
  pub op : LeaseOpKind
  pub next : AfterLease

pub data Effect : Type 0 where
  set_gate_mode : GateMode → Effect
  request_verb : Verb → Effect
  arm_timer : (id : TimerId) (deadline : MonoNs) → Effect
  cancel_timer : (id : TimerId) → Effect
  open_successor :
      (predecessor successor : EpisodeId) (claim : ClaimId) (born_claimed : Bool)
      (mode : ResetVerificationMode)
      → Effect
  mint_lease_token : PendingLeaseOp → Effect
  reprime_policy : Effect
  set_reset_unverified : (episode : EpisodeId) → Effect
  set_post_reset_failed : (episode : EpisodeId) → Effect
  run_post_reset : (episode : EpisodeId) → Effect
  emitted : EpisodeEvent → Effect
