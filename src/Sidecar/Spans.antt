-- ===== src/Sidecar/Spans.antt =====
-- How an event moves the spans of builder.rs: `push_event` and the handlers below it.
use waddle_sdk.Prelude.{
  Bool, true, false, ◌&&◌, not, Option, none, some, List, [], ◌∷◌, ◌++◌, String, ◌==◌, is_some,
  if◌then◌else◌,
}
use waddle_sdk.Prelude.Int.{ℤ}
use waddle_sdk.Types.Actor.{Provenance, ProvenanceTag, for_claim, policy_tag}
use waddle_sdk.Types.{EpisodeStateKind, InterventionPhase, GateMode}
use waddle_sdk.Session.Emission.{ClaimEventKind, LeaseEventKind, Body, EpisodeEvent}
use waddle_sdk.Sidecar.{
  Claim, Lease, OpenIntervention, SidecarBuilder, span, closed, closed_intervention, into_span,
}

abbrev pub same_claim : String → ℤ × Claim → Bool
same_claim id c = c.1.claim_id == id

-- `position` and `remove`: the first claim of that id, and the others.
unfoldable pub remove_claim : String → List (ℤ × Claim) → Option (ℤ × Claim) × List (ℤ × Claim)
remove_claim id [] = (none, [])
remove_claim id (c ∷ cs) =
    let rest = remove_claim id cs in if same_claim id c then (some c, cs) else (rest.0, c ∷ rest.1)

unfoldable pub on_claim : SidecarBuilder → ℤ → ClaimEventKind → Claim → SidecarBuilder
unfolding remove_claim
on_claim b t ClaimEventKind.granted c = record b { open_claims = b.open_claims ++ (t, c) ∷ [] }
on_claim b t ClaimEventKind.released c =
    let (found, rest) = remove_claim c.claim_id b.open_claims in
    record b { open_claims = rest; claims = closed found t b.claims }
on_claim b t ClaimEventKind.requested c = b
on_claim b t ClaimEventKind.denied c = b

abbrev pub lease_closes : LeaseEventKind → Bool
lease_closes LeaseEventKind.denied = false
lease_closes _ = true

abbrev pub lease_opens : LeaseEventKind → Bool
lease_opens LeaseEventKind.acquired = true
lease_opens LeaseEventKind.handed_off = true
lease_opens _ = false

abbrev pub opened_lease : Bool → ℤ → Option Lease → Option (ℤ × Lease) → Option (ℤ × Lease)
opened_lease true t (some l) before = some (t, l)
opened_lease _ t l before = before

unfoldable pub on_lease : SidecarBuilder → ℤ → LeaseEventKind → Option Lease → SidecarBuilder
on_lease b t kind l = record b {
  leases = if lease_closes kind then closed b.open_lease t b.leases else b.leases;
  open_lease =
      opened_lease (lease_opens kind) t l (if lease_closes kind then none else b.open_lease);
}

abbrev pub fresh_intervention : ℤ → String → OpenIntervention
fresh_intervention t claim_id = record {
  t_start_ns = t;
  claim_id = claim_id;
  phases = [];
  open_phase = some (InterventionPhase.engage, t);
}

-- `close_phase`, and the phase that begins.
abbrev pub next_phase : OpenIntervention → ℤ → InterventionPhase → OpenIntervention
next_phase o t phase = record o {
  phases = elim o.open_phase [ none ↦ o.phases | some p ↦ o.phases ++ (p.0, span p.1 t) ∷ [] ];
  open_phase = some (phase, t);
}

abbrev pub continued :
    SidecarBuilder → ℤ → InterventionPhase → Option OpenIntervention → SidecarBuilder
continued b t phase none = b
continued b t phase (some o) = record b { open_intervention = some (next_phase o t phase) }

unfoldable pub on_intervention : SidecarBuilder → ℤ → InterventionPhase → String → SidecarBuilder
unfolding into_span
on_intervention b t InterventionPhase.engage claim_id = record b {
  interventions = closed_intervention b.open_intervention t b.interventions;
  open_intervention = some (fresh_intervention t claim_id);
}
on_intervention b t phase claim_id = continued b t phase b.open_intervention

-- `claim_tag`: the actor of a claim is there, and its kind is known.
unfoldable pub claim_tag : Claim → ProvenanceTag
unfolding for_claim
claim_tag c = record {
  provenance = for_claim c.actor.kind c.source_name;
  actor = some c.actor;
  bypass_approval = c.self_initiated;
}

unfoldable pub teleop_tag : ProvenanceTag
teleop_tag = record { provenance = Provenance.teleop; actor = none; bypass_approval = false }

-- Of the last open claim.
unfoldable pub driver_tag : List (ℤ × Claim) → ProvenanceTag
unfolding teleop_tag claim_tag
driver_tag [] = teleop_tag
driver_tag (c ∷ []) = claim_tag c.1
driver_tag (c ∷ d ∷ cs) = driver_tag (d ∷ cs)

-- Whose provenance a gate mode opens; none where it opens no span.
unfoldable pub mode_tag : List (ℤ × Claim) → GateMode → Option ProvenanceTag
unfolding policy_tag driver_tag
mode_tag claims GateMode.passthrough = some policy_tag
mode_tag claims GateMode.intervention = some (driver_tag claims)
mode_tag claims GateMode.bypass = some (driver_tag claims)
mode_tag claims GateMode.reset = none

abbrev pub retagged : SidecarBuilder → ℤ → Option ProvenanceTag → SidecarBuilder
retagged b t none = b
retagged b t (some tag) = record b {
  provenance = closed b.open_provenance t b.provenance;
  open_provenance = some (t, tag);
}

unfoldable pub on_gate : SidecarBuilder → ℤ → GateMode → SidecarBuilder
unfolding mode_tag
on_gate b t to = retagged b t (mode_tag b.open_claims to)

abbrev pub is_intervention : Option EpisodeStateKind → Bool
is_intervention (some EpisodeStateKind.intervention) = true
is_intervention _ = false

abbrev pub is_post_reset : EpisodeStateKind → Bool
is_post_reset EpisodeStateKind.post_reset = true
is_post_reset _ = false

abbrev pub is_terminal_kind : EpisodeStateKind → Bool
is_terminal_kind EpisodeStateKind.terminal = true
is_terminal_kind _ = false

unfoldable pub on_state :
    SidecarBuilder → ℤ → Option EpisodeStateKind → EpisodeStateKind → SidecarBuilder
unfolding into_span
on_state b t from to =
    let leaving = is_intervention from && not (is_intervention (some to)) in
    let start = if is_post_reset to then some t else b.post_reset_start_ns in
    record b {
      interventions =
          if leaving
          then closed_intervention b.open_intervention t b.interventions
          else b.interventions;
      open_intervention = if leaving then none else b.open_intervention;
      post_reset_start_ns = start;
      post_reset_end_ns =
          if is_terminal_kind to && is_some start then some t else b.post_reset_end_ns;
    }

-- The `match` of `push_event`.
unfoldable pub derive_spans : SidecarBuilder → ℤ → Body → SidecarBuilder
unfolding on_claim on_lease on_intervention on_gate on_state
derive_spans b t (Body.claim kind claim_id episode_id actor source_name self_initiated detail) =
    on_claim b t kind (record {
      claim_id = claim_id;
      episode_id = episode_id;
      actor = actor;
      source_name = source_name;
      self_initiated = self_initiated;
    })
derive_spans b t (Body.lease kind l enforcement detail) = on_lease b t kind l
derive_spans b t (Body.intervention phase claim_id) = on_intervention b t phase claim_id
derive_spans b t (Body.gate from to reason) = on_gate b t to
derive_spans b t (Body.state from to reason outcome) = on_state b t from to
derive_spans b t (Body.post_reset result detail pinned) = record b {
  post_reset_result = some (result, detail);
}
derive_spans b t _ = b

unfoldable pub push_event : SidecarBuilder → EpisodeEvent → SidecarBuilder
unfolding derive_spans
push_event b e =
    let derived = derive_spans b e.t_ns e.event in
    record derived { events = derived.events ++ e ∷ [] }
