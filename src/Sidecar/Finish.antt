-- ===== src/Sidecar/Finish.antt =====
-- What closes a sidecar in builder.rs: its flags, its outcome and `SidecarBuilder::finish`.
use waddle_sdk.Prelude.{Bool, true, false, Option, none, some, List, [], ◌∷◌, ◌++◌, String}
use waddle_sdk.Prelude.Int.{ℤ, pos}
use waddle_sdk.Types.Time.{Stamp}
use waddle_sdk.Types.Actor.{ProvenanceTag}
use waddle_sdk.Types.{EpisodeId, TerminalOutcome}
use waddle_sdk.Session.Emission.{EpisodeEvent}
use waddle_sdk.Sidecar.{
  Span, Claim, Lease, InterventionSpan, SidecarBuilder, span, closed, closed_intervention,
  into_span,
}

unfoldable pub set_outcome : SidecarBuilder → TerminalOutcome → String → SidecarBuilder
set_outcome b outcome detail = record b { outcome = some outcome; outcome_detail = detail }

unfoldable pub set_retake : SidecarBuilder → EpisodeId → EpisodeId → SidecarBuilder
set_retake b parent successor = record b { retake = some (parent, successor) }

unfoldable pub set_born_claimed : SidecarBuilder → Bool → SidecarBuilder
set_born_claimed b born_claimed = record b { born_claimed = born_claimed }

unfoldable pub mark_reset_unverified : SidecarBuilder → SidecarBuilder
mark_reset_unverified b = record b { reset_unverified = true }

unfoldable pub set_post_reset_declared : SidecarBuilder → Bool → SidecarBuilder
set_post_reset_declared b declared = record b { post_reset_declared = declared }

unfoldable pub mark_post_reset_failed : SidecarBuilder → SidecarBuilder
mark_post_reset_failed b = record b { post_reset_failed = true }

pub data MetricsClass : Type 0 where
  standard born_claimed : MetricsClass

pub record Sidecar : Type 0 where
  pub episode_id : EpisodeId
  pub bounds : Span
  pub t_start_unix_ns : ℤ
  pub t_end_unix_ns : ℤ
  pub outcome : Option TerminalOutcome
  pub outcome_detail : String
  pub born_claimed : Bool
  pub retake : Option (EpisodeId × EpisodeId)
  pub metrics_class : MetricsClass
  pub claims : List (Claim × Span)
  pub leases : List (Lease × Span)
  pub provenance : List (ProvenanceTag × Span)
  pub interventions : List InterventionSpan
  pub events : List EpisodeEvent
  pub reset_unverified : Bool
  pub post_reset_declared : Bool
  pub post_reset_failed : Bool
  pub post_reset_result : Option (Bool × String)
  pub post_reset_bounds : Option Span

-- Whatever is open is written as an open span.
abbrev pub left_open : List (ℤ × Claim) → List (Claim × Span)
left_open [] = []
left_open ((t, c) ∷ cs) = (c, span t (pos 0)) ∷ left_open cs

abbrev mono_or_zero : Option Stamp → ℤ
mono_or_zero none = pos 0
mono_or_zero (some s) = s.mono

abbrev epoch_or_zero : Option Stamp → ℤ
epoch_or_zero none = pos 0
epoch_or_zero (some s) = s.epoch

abbrev or_open : Option ℤ → ℤ
or_open none = pos 0
or_open (some t) = t

abbrev post_bounds : Option ℤ → Option ℤ → Option Span
post_bounds none t_end = none
post_bounds (some t) t_end = some (span t (or_open t_end))

abbrev class_of : Bool → MetricsClass
class_of true = MetricsClass.born_claimed
class_of false = MetricsClass.standard

abbrev pub assembled : SidecarBuilder → Stamp → Sidecar
assembled b start = record {
  episode_id = b.episode_id;
  bounds = span start.mono (mono_or_zero b.bounds_end);
  t_start_unix_ns = start.epoch;
  t_end_unix_ns = epoch_or_zero b.bounds_end;
  outcome = b.outcome;
  outcome_detail = b.outcome_detail;
  born_claimed = b.born_claimed;
  retake = b.retake;
  metrics_class = class_of b.born_claimed;
  claims = b.claims ++ left_open b.open_claims;
  leases = closed b.open_lease (pos 0) b.leases;
  provenance = closed b.open_provenance (pos 0) b.provenance;
  interventions = closed_intervention b.open_intervention (pos 0) b.interventions;
  events = b.events;
  reset_unverified = b.reset_unverified;
  post_reset_declared = b.post_reset_declared;
  post_reset_failed = b.post_reset_failed;
  post_reset_result = b.post_reset_result;
  post_reset_bounds = post_bounds b.post_reset_start_ns b.post_reset_end_ns;
}

-- `none` is the error of a builder whose bounds were never opened.
unfoldable pub finish : SidecarBuilder → Option Sidecar
unfolding into_span
finish b = elim b.bounds_start [ none ↦ none | some start ↦ some (assembled b start) ]
