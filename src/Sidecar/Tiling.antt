-- ===== src/Sidecar/Tiling.antt =====
-- What a sidecar of builder.rs accounts for: the whole time of the episode, its claims, its events.
use waddle_sdk.Prelude.{
  ◌≡◌, refl, sym, ◌∙◌, ℕ, ◌+◌, true, Option, none, some, List, [], ◌∷◌, ◌++◌, String, append_one,
  append_nil, arith,
}
use waddle_sdk.Prelude.Int.{ℤ}
use waddle_sdk.Types.Time.{Stamp}
use waddle_sdk.Types.Actor.{ProvenanceTag, policy_tag}
use waddle_sdk.Types.{EpisodeId, InterventionPhase}
use waddle_sdk.Session.Emission.{ClaimEventKind, Body, EpisodeEvent}
use waddle_sdk.Sidecar.{
  Span, Claim, OpenIntervention, SidecarBuilder, new, span, closed, open_bounds, close_bounds,
}
use waddle_sdk.Sidecar.Spans.{
  on_claim, on_lease, on_intervention, continued, mode_tag, retagged, on_gate, on_state,
  derive_spans, push_event,
}
use waddle_sdk.Sidecar.Finish.{Sidecar, assembled, finish}
use waddle_sdk.Sidecar.Tally.{
  ClaimTest, tally, grants_of, is_grant, grants, open_tally, open_tally-append, tally-remove_claim,
  tally-left_open,
}

abbrev pub push_all : SidecarBuilder → List EpisodeEvent → SidecarBuilder
push_all b [] = b
push_all b (e ∷ es) = push_all (push_event b e) es

-- The spans follow on each other without a gap, from `lo` to `hi`.
abbrev pub Tiles : ℤ → ℤ → List (ProvenanceTag × Span) → Type 0
Tiles lo hi [] = lo ≡ hi
Tiles lo hi ((tag, s) ∷ spans) = (s.t_start_ns ≡ lo) × Tiles s.t_end_ns hi spans

Tiles-append :
    (lo mid hi : ℤ) (tag : ProvenanceTag) (spans : List (ProvenanceTag × Span))
    → Tiles lo mid spans
    → Tiles lo hi (spans ++ (tag, span mid hi) ∷ [])
Tiles-append lo mid hi tag [] h = (sym h, refl)
Tiles-append lo mid hi tag ((own, s) ∷ spans) h =
    (h.0, Tiles-append s.t_end_ns mid hi tag spans h.1)

-- The spans so far tile the time up to the open one.
abbrev TilesToOpen : ℤ → Option (ℤ × ProvenanceTag) → List (ProvenanceTag × Span) → Type 0
TilesToOpen start none spans = ⊥
TilesToOpen start (some (t, tag)) spans = Tiles start t spans

-- And every granted claim has a span, or is open; and every event is there.
abbrev Covers : ClaimTest → Stamp → ℕ → List EpisodeEvent → SidecarBuilder → Type 0
Covers p first granted es b =
    TilesToOpen first.mono b.open_provenance b.provenance
    × (tally p b.claims + open_tally p b.open_claims ≡ granted)
    × (b.bounds_start ≡ some first)
    × (b.events ≡ es)

TilesToOpen-closed :
    (start t : ℤ) (tag : ProvenanceTag) (before : Option (ℤ × ProvenanceTag))
    (spans : List (ProvenanceTag × Span))
    → TilesToOpen start before spans
    → Tiles start t (closed before t spans)
TilesToOpen-closed start t tag none spans h = absurd h
TilesToOpen-closed start t tag (some (from, own)) spans h = Tiles-append start from t own spans h

none_granted :
    (p : ClaimTest) (first : Stamp) (n : ℕ) (es : List EpisodeEvent) (b : SidecarBuilder)
    → Covers p first n es b
    → Covers p first (0 + n) es b
none_granted p first n es b h = (h.0, omega (arith, h.1), h.2, h.3)

Covers-retagged :
    (p : ClaimTest) (first : Stamp) (t : ℤ) (n : ℕ) (es : List EpisodeEvent) (b : SidecarBuilder)
    (to : Option ProvenanceTag)
    → Covers p first n es b
    → Covers p first n es (retagged b t to)
Covers-retagged p first t n es b none h = h
Covers-retagged p first t n es b (some to) h =
    (TilesToOpen-closed first.mono t to b.open_provenance b.provenance h.0, h.1, h.2, h.3)

Covers-continued :
    (p : ClaimTest) (first : Stamp) (t : ℤ) (n : ℕ) (es : List EpisodeEvent) (b : SidecarBuilder)
    (phase : InterventionPhase) (o : Option OpenIntervention)
    → Covers p first n es b
    → Covers p first n es (continued b t phase o)
Covers-continued p first t n es b phase none h = h
Covers-continued p first t n es b phase (some o) h = h

Covers-on_intervention :
    (p : ClaimTest) (first : Stamp) (t : ℤ) (n : ℕ) (es : List EpisodeEvent) (b : SidecarBuilder)
    (phase : InterventionPhase) (id : String)
    → Covers p first n es b
    → Covers p first n es (on_intervention b t phase id)
unfolding on_intervention
Covers-on_intervention p first t n es b InterventionPhase.engage id h = h
Covers-on_intervention p first t n es b InterventionPhase.settle id h =
    Covers-continued p first t n es b InterventionPhase.settle b.open_intervention h
Covers-on_intervention p first t n es b InterventionPhase.release id h =
    Covers-continued p first t n es b InterventionPhase.release b.open_intervention h
Covers-on_intervention p first t n es b InterventionPhase.retake id h =
    Covers-continued p first t n es b InterventionPhase.retake b.open_intervention h

Covers-on_claim :
    (p : ClaimTest) (first : Stamp) (t : ℤ) (n : ℕ) (es : List EpisodeEvent) (b : SidecarBuilder)
    (kind : ClaimEventKind) (c : Claim)
    → Covers p first n es b
    → Covers p first (grants_of p t kind c + n) es (on_claim b t kind c)
unfolding on_claim
Covers-on_claim p first t n es b ClaimEventKind.granted c h =
    (h.0, omega (arith, h.1, open_tally-append p b.open_claims ((t, c) ∷ [])), h.2, h.3)
Covers-on_claim p first t n es b ClaimEventKind.released c h =
    (h.0, omega (arith, tally-remove_claim p c.claim_id t b.claims b.open_claims, h.1), h.2, h.3)
Covers-on_claim p first t n es b ClaimEventKind.requested c h = none_granted p first n es b h
Covers-on_claim p first t n es b ClaimEventKind.denied c h = none_granted p first n es b h

Covers-derive_spans :
    (p : ClaimTest) (first : Stamp) (t : ℤ) (n : ℕ) (es : List EpisodeEvent) (b : SidecarBuilder)
    (e : Body)
    → Covers p first n es b
    → Covers p first (is_grant p t e + n) es (derive_spans b t e)
unfolding derive_spans on_gate on_lease on_state
Covers-derive_spans p first t n es b (Body.claim kind i ep a s self d) h =
    Covers-on_claim p first t n es b kind
      (record { claim_id = i; episode_id = ep; actor = a; source_name = s; self_initiated = self })
      h
Covers-derive_spans p first t n es b (Body.gate from to reason) h =
    none_granted p first n es (on_gate b t to)
      (Covers-retagged p first t n es b (mode_tag b.open_claims to) h)
Covers-derive_spans p first t n es b (Body.intervention phase id) h =
    none_granted p first n es (on_intervention b t phase id)
      (Covers-on_intervention p first t n es b phase id h)
Covers-derive_spans p first t n es b _ h = (h.0, omega (arith, h.1), h.2, h.3)

Covers-push_all :
    (p : ClaimTest) (first : Stamp) (n : ℕ) (before : List EpisodeEvent) (b : SidecarBuilder)
    (es : List EpisodeEvent)
    → Covers p first n before b
    → Covers p first (grants p es + n) (before ++ es) (push_all b es)
unfolding push_event
Covers-push_all p first n before b [] h =
    (h.0, omega (arith, h.1), h.2, h.3 ∙ sym (append_nil before))
Covers-push_all p first n before b (e ∷ es) h =
    let derived = Covers-derive_spans p first e.t_ns n before b e.event h in
    let pushed =
      Covers-push_all p first (is_grant p e.t_ns e.event + n) (before ++ e ∷ []) (push_event b e) es
        (derived.0, derived.1, derived.2, rw derived.3 refl) in
    (pushed.0, omega (arith, pushed.1), pushed.2, rw pushed.3 (append_one before e es))

-- What a sidecar says of an episode from `first` to `last` with these events.
abbrev pub AccountsFor : Stamp → Stamp → List EpisodeEvent → Sidecar → Type 0
AccountsFor first last es s =
    (s.bounds ≡ span first.mono last.mono)
    × Tiles first.mono last.mono s.provenance
    × ((p : ClaimTest) → tally p s.claims ≡ grants p es)
    × (s.events ≡ es)

-- A sidecar whose bounds are opened, that is given any events in any order and whose bounds are
-- closed is always written, and accounts for the episode: its provenance spans follow on each
-- other without a gap from the first bound to the last; its claim spans are those of the granted
-- claims, whatever property of a claim and of its first instant is counted: as many spans begin at an
-- instant with a claim of this id, episode, actor, source and initiative as there are grants of such a
-- claim at that instant; and it has every event in the order of arrival.
pub finish-push_all :
    (id : EpisodeId) (first last : Stamp) (es : List EpisodeEvent)
    → (s : Sidecar) × (finish (close_bounds (push_all (open_bounds (new id) first) es) last)
        ≡ some s)
      × AccountsFor first last es s
unfolding finish close_bounds open_bounds new
finish-push_all id first last es =
    let b = push_all (open_bounds (new id) first) es in
    let covered = λ (p : ClaimTest).
      Covers-push_all p first 0 [] (open_bounds (new id) first) es (refl, refl, refl, refl) in
    let any = covered (λ c t. true) in
    (
      assembled (close_bounds b last) first,
      rw any.2 refl,
      (
        refl,
        TilesToOpen-closed first.mono last.mono policy_tag b.open_provenance b.provenance any.0,
        λ p. omega (arith, tally-left_open p b.claims b.open_claims, (covered p).1),
        any.3,
      ),
    )
