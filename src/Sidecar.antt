-- ===== src/Sidecar.antt =====
-- The sidecar of one episode, waddle-core/crates/waddle-sidecar/src/builder.rs: the builder's state
-- and the spans that it derives from the events. The episode's names, task, metadata and clock
-- anchor, which are only copied, and the parts that the runtime never adds (judgments, archive
-- references, the audit record, the verification record) are left out.
pub mod Spans
pub mod Finish
pub mod Tally
pub mod Tiling
mod Examples
use waddle_sdk.Prelude.{
  ◌+◌, Bool, true, false, ◌&&◌, not, Option, none, some, List, [], ◌∷◌, ◌++◌, String, ◌==◌, is_some,
  if◌then◌else◌,
}
use waddle_sdk.Prelude.Int.{ℤ, pos}
use waddle_sdk.Types.Time.{Stamp}
use waddle_sdk.Types.Actor.{ActorRef, Provenance, ProvenanceTag, for_claim, policy_tag}
use waddle_sdk.Types.{
  ClientId, LeaseId, EpisodeId, TerminalOutcome, EpisodeStateKind, InterventionPhase, GateMode,
}
use waddle_sdk.Session.Emission.{ClaimEventKind, LeaseEventKind, Body, EpisodeEvent}

-- `t_end_ns` is zero where the span is open.
pub record Span : Type 0 where
  pub t_start_ns : ℤ
  pub t_end_ns : ℤ

pub record Claim : Type 0 where
  pub claim_id : String
  pub episode_id : String
  pub actor : ActorRef
  pub source_name : String
  pub self_initiated : Bool

abbrev pub Lease : Type 0
Lease = LeaseId × ClientId

pub record OpenIntervention : Type 0 where
  pub t_start_ns : ℤ
  pub claim_id : String
  pub phases : List (InterventionPhase × Span)
  pub open_phase : Option (InterventionPhase × ℤ)

pub record InterventionSpan : Type 0 where
  pub span : Span
  pub claim_id : String
  pub phases : List (InterventionPhase × Span)

pub record SidecarBuilder : Type 0 where
  pub episode_id : EpisodeId
  pub bounds_start : Option Stamp
  pub bounds_end : Option Stamp
  pub outcome : Option TerminalOutcome
  pub outcome_detail : String
  pub born_claimed : Bool
  pub retake : Option (EpisodeId × EpisodeId)
  pub reset_unverified : Bool
  pub post_reset_declared : Bool
  pub post_reset_failed : Bool
  pub post_reset_result : Option (Bool × String)
  pub post_reset_start_ns : Option ℤ
  pub post_reset_end_ns : Option ℤ
  pub events : List EpisodeEvent
  pub claims : List (Claim × Span)
  pub open_claims : List (ℤ × Claim)
  pub leases : List (Lease × Span)
  pub open_lease : Option (ℤ × Lease)
  pub provenance : List (ProvenanceTag × Span)
  pub open_provenance : Option (ℤ × ProvenanceTag)
  pub interventions : List InterventionSpan
  pub open_intervention : Option OpenIntervention

unfoldable pub new : EpisodeId → SidecarBuilder
new episode_id = record {
  episode_id = episode_id;
  bounds_start = none;
  bounds_end = none;
  outcome = none;
  outcome_detail = "";
  born_claimed = false;
  retake = none;
  reset_unverified = false;
  post_reset_declared = false;
  post_reset_failed = false;
  post_reset_result = none;
  post_reset_start_ns = none;
  post_reset_end_ns = none;
  events = [];
  claims = [];
  open_claims = [];
  leases = [];
  open_lease = none;
  provenance = [];
  open_provenance = none;
  interventions = [];
  open_intervention = none;
}

abbrev pub span : ℤ → ℤ → Span
span t_start_ns t_end_ns = record { t_start_ns = t_start_ns; t_end_ns = t_end_ns }

-- What is open, if anything, becomes a span that ends at `t`.
abbrev pub closed : {A : Type 0} → Option (ℤ × A) → ℤ → List (A × Span) → List (A × Span)
closed none t spans = spans
closed (some (t_start, a)) t spans = spans ++ (a, span t_start t) ∷ []

-- `OpenIntervention::into_span`, with `close_phase`.
unfoldable pub into_span : OpenIntervention → ℤ → InterventionSpan
into_span o t = record {
  span = span o.t_start_ns t;
  claim_id = o.claim_id;
  phases = elim o.open_phase [ none ↦ o.phases | some p ↦ o.phases ++ (p.0, span p.1 t) ∷ [] ];
}

abbrev pub closed_intervention :
    Option OpenIntervention → ℤ → List InterventionSpan → List InterventionSpan
closed_intervention none t spans = spans
closed_intervention (some o) t spans = spans ++ into_span o t ∷ []

unfoldable pub open_bounds : SidecarBuilder → Stamp → SidecarBuilder
unfolding policy_tag
open_bounds b stamp = record b {
  bounds_start = some stamp;
  open_provenance =
      if is_some b.open_provenance then b.open_provenance else some (stamp.mono, policy_tag);
}

unfoldable pub close_bounds : SidecarBuilder → Stamp → SidecarBuilder
close_bounds b stamp = record b {
  bounds_end = some stamp;
  leases = closed b.open_lease stamp.mono b.leases;
  open_lease = none;
  provenance = closed b.open_provenance stamp.mono b.provenance;
  open_provenance = none;
}
