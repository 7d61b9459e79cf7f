-- ===== src/Runtime/Mirror.antt =====
-- The status that the reducer publishes: `Status` of mirror.rs as far as `publish_mirror` of reducer.rs
-- sets it, in waddle-core/crates/waddle-runtime/src.
use waddle_sdk.Prelude.{ℕ, ◌+◌, Bool, true, false, Option, none, some, ◌==◌, is_some, if◌then◌else◌}
use waddle_sdk.Types.Actor.{ProvenanceTag, policy_tag}
use waddle_sdk.Types.{EpisodeId, ClaimId, TerminalOutcome, GateMode}
use waddle_sdk.Session.Episode.{Phase, EpisodeState, provenance}
use waddle_sdk.Session.State.{SessionFsm}
use waddle_sdk.Gate.Jitter.{u64}

pub record Status : Type 0 where
  pub episode_id : Option EpisodeId
  pub episode_state : Option Phase
  pub gate_mode : Option GateMode
  pub claim_active : Bool
  pub active_claim_id : Option ClaimId
  pub claim_generation : ℕ
  pub provenance : Option ProvenanceTag
  pub outcome : Option TerminalOutcome
  pub pinned_outcome : Option TerminalOutcome
  pub post_reset_failed : Bool
  pub agent_invited : Bool
  pub agent_engaged : Bool
  pub agent_invite_aborted : Bool
  pub plane_connected : Bool

-- The status, and the claim that its claim generation is about.
pub record Mirror : Type 0 where
  pub status : Status
  pub claim_window : Option ClaimId
  pub claim_generation : ℕ

-- `Reducer::claim_provenance`.
unfoldable pub claim_provenance : SessionFsm → ProvenanceTag
unfolding provenance policy_tag
claim_provenance s = elim s.claim [ none ↦ policy_tag | some c ↦ provenance c ]

abbrev pub claim_id : SessionFsm → Option ClaimId
claim_id s = elim s.claim [ none ↦ none | some c ↦ some c.id ]

abbrev pub same_window : Option ClaimId → Option ClaimId → Bool
same_window none none = true
same_window (some a) (some b) = a == b
same_window _ _ = false

abbrev terminal_of : Phase → Option TerminalOutcome
terminal_of (Phase.terminal o) = some o
terminal_of _ = none

-- What the status says of the episode.
abbrev of_episode : Status → Option EpisodeState → Status
of_episode s none = record s {
  episode_id = none;
  episode_state = none;
  outcome = none;
  pinned_outcome = none;
  post_reset_failed = false;
  agent_invited = false;
  agent_engaged = false;
  agent_invite_aborted = false;
}
of_episode s (some e) = record s {
  episode_id = some e.id;
  episode_state = some e.phase;
  outcome = terminal_of e.phase;
  pinned_outcome = e.pinned_outcome;
  post_reset_failed = e.post_reset_failed;
  agent_invited = e.agent_invited;
  agent_engaged = e.agent_engaged;
  agent_invite_aborted = e.invite_aborted;
}

-- `publish_mirror`.
unfoldable pub publish : SessionFsm → Mirror → Mirror
unfolding claim_provenance
publish s m =
    let generation =
      if same_window m.claim_window (claim_id s)
      then m.claim_generation
      else u64 (m.claim_generation + 1) in
    record {
      status = record (of_episode m.status s.episode) {
        gate_mode = some s.gate_mode;
        claim_active = is_some s.claim;
        active_claim_id = claim_id s;
        claim_generation = generation;
        provenance = if is_some s.claim then some (claim_provenance s) else none;
        plane_connected = s.plane_connected;
      };
      claim_window = claim_id s;
      claim_generation = generation;
    }
