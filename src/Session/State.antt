-- ===== src/Session/State.antt =====
-- config.rs and the state of session.rs of waddle-core/crates/waddle-fsm/src. The session, robot
-- and cell ids of the configuration are not read by the machine and are left out, and its
-- hysteresis ratio is the function `good_band` that grant health takes.
use waddle_sdk.Prelude.{ℕ, Bool, true, false, ◌&&◌, Option, none, some, List, map, String}
use waddle_sdk.Prelude.Int.{ℤ}
use waddle_sdk.Types.Actor.{ActorKind}
use waddle_sdk.Types.{ClientId, LeaseEnforcement, HandoffPolicy, Grant, GateMode, same_mode}
use waddle_sdk.Lease.{LeaseState}
use waddle_sdk.GrantHealth.{GrantHealthEntry, from_grant}
use waddle_sdk.Session.Episode.{Phase, EpisodeState, ActiveClaim}
use waddle_sdk.Session.Effect.{PendingLeaseOp, Effect}

pub record SessionConfig : Type 0 where
  pub loop_client : ClientId
  pub enforcement : LeaseEnforcement
  pub handoff : HandoffPolicy
  pub grants : List Grant
  pub space_contains_delta : Bool
  pub clutch_source : String
  pub clutch_actor : ActorKind
  pub heartbeat_timeout_ns : ℤ
  pub engage_timeout_ns : ℤ
  pub demote_after : ℕ
  pub promote_after : ℕ
  pub good_band : ℤ → ℤ

pub data EngageStage : Type 0 where
  await_hold_ok await_chunk_boundary await_lease : EngageStage

abbrev pub is_await_hold_ok : Option EngageStage → Bool
is_await_hold_ok (some EngageStage.await_hold_ok) = true
is_await_hold_ok _ = false

abbrev pub is_await_chunk_boundary : Option EngageStage → Bool
is_await_chunk_boundary (some EngageStage.await_chunk_boundary) = true
is_await_chunk_boundary _ = false

pub record SessionFsm : Type 0 where
  pub episode : Option EpisodeState
  pub claim : Option ActiveClaim
  pub lease : LeaseState
  pub pending_lease : Option PendingLeaseOp
  pub gate_mode : GateMode
  pub engage_stage : Option EngageStage
  pub engage_timed_out : Bool
  pub plane_connected : Bool
  pub buffered_events : ℕ
  pub grants : List GrantHealthEntry
  pub clutch_seq : ℕ

-- `SessionFsm::new`.
unfoldable pub new : SessionConfig → SessionFsm
unfolding from_grant
new cfg = record {
  episode = none;
  claim = none;
  lease = LeaseState.vacant;
  pending_lease = none;
  gate_mode = GateMode.passthrough;
  engage_stage = none;
  engage_timed_out = false;
  plane_connected = true;
  buffered_events = 0;
  grants = map from_grant cfg.grants;
  clutch_seq = 0;
}

-- Phases of an episode's run, in which E24 holds the caller's ticks back.
abbrev pub in_run : Phase → Bool
in_run Phase.resetting = true
in_run Phase.ready = true
in_run Phase.running = true
in_run (Phase.intervention p) = true
in_run _ = false

abbrev pub agent_run : Option EpisodeState → Bool
agent_run none = false
agent_run (some e) = e.agent_invited && in_run e.phase

-- E24: the gate plan of PASSTHROUGH is the agent-episode no-op.
unfoldable pub agent_episode_noop : SessionFsm → Bool
agent_episode_noop s = same_mode s.gate_mode GateMode.passthrough && agent_run s.episode

unfoldable pub gate_plan_inputs : SessionFsm → GateMode × Bool
unfolding agent_episode_noop
gate_plan_inputs s = (s.gate_mode, agent_episode_noop s)

pub record Step : Type 0 where
  pub next : SessionFsm
  pub effects : List Effect
