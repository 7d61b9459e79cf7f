-- ===== src/Session/Handlers/Claims.antt =====
-- Handlers of session.rs's `step` for claims: requests, grants, releases and the clutch.
use waddle_sdk.Prelude.{
  ℕ, ◌+◌, Bool, true, false, ◌&&◌, ◌||◌, not, Option, none, some, ◌<>◌, decimal, ◌==◌, is_some,
  is_none, if◌then◌else◌,
}
use waddle_sdk.Outcome.{Outcome, done, rejected, ◌>>=◌}
use waddle_sdk.Types.Time.{MonoNs}
use waddle_sdk.Types.{ClaimId}
use waddle_sdk.Types.Actor.{ActorKind, same_kind, of_kind}
use waddle_sdk.GrantHealth.{u32}
use waddle_sdk.Session.Episode.{EpisodeState, ResetWindowState, ActiveClaim}
use waddle_sdk.Session.Emission.{ClaimEventKind, claim_event}
use waddle_sdk.Session.State.{SessionConfig}
use waddle_sdk.Session.Phases.{is_active, is_running, in_reset_phase, is_intervention, is_settle}
use waddle_sdk.Session.Context.{Ctx, emit, episode}
use waddle_sdk.Session.Engage.{begin_engage, begin_release}

-- Which actors the window's expected actor admits.
unfoldable pub window_admits : ActorKind → ActorKind → Bool
window_admits ActorKind.teleoperator actor =
    same_kind actor ActorKind.teleoperator || same_kind actor ActorKind.site_operator
window_admits ActorKind.site_operator actor = same_kind actor ActorKind.site_operator
window_admits ActorKind.agent actor = same_kind actor ActorKind.agent
window_admits ActorKind.policy actor = same_kind actor ActorKind.policy
window_admits ActorKind.system actor = same_kind actor ActorKind.system
window_admits ActorKind.custom actor = same_kind actor ActorKind.custom

abbrev pub agent_invited : Option EpisodeState → Bool
agent_invited none = false
agent_invited (some e) = e.agent_invited

unfoldable pub on_claim_requested : Ctx → ActiveClaim → MonoNs → Outcome Ctx
unfolding episode emit claim_event
on_claim_requested c claim at =
    if is_active c.s.episode
    then (do e ← episode c; done (emit c (claim_event at e.id ClaimEventKind.requested claim "")))
    else rejected "claim_request without an active episode"

-- A window that a reset claim may serve: open in a reset phase, and not engaged.
abbrev pub open_window : Option EpisodeState → Option ResetWindowState
open_window none = none
open_window (some e) =
    if in_reset_phase (some e)
    then (elim e.reset_window [ none ↦ none | some w ↦ if w.engaged then none else some w ])
    else none

unfoldable pub grant_claim : Ctx → ActiveClaim → MonoNs → Outcome Ctx
unfolding episode emit claim_event
grant_claim c claim at = do
  e ← episode c
  let c1 = emit c (claim_event at e.id ClaimEventKind.granted claim "")
  done (record c1 { s = record (c1.s) { claim = some claim } })

-- The refusal of an actor who is not the invited agent is recorded, and changes no state.
unfoldable pub refuse_claim : Ctx → ActiveClaim → MonoNs → Outcome Ctx
unfolding episode emit claim_event
refuse_claim c claim at = do
  e ← episode c
  done (
      emit c (
        claim_event at e.id ClaimEventKind.denied claim
          "agent-invited episode admits ACTOR_KIND_AGENT only (C8)"))

unfoldable pub on_claim_granted : Ctx → ActiveClaim → MonoNs → Outcome Ctx
unfolding window_admits grant_claim refuse_claim
on_claim_granted c claim at =
    if not (is_active c.s.episode)
    then rejected "claim_granted without an active episode"
    else if is_some c.s.claim
    then rejected "conflicting active claim (one claim in v0)"
    else elim (open_window c.s.episode) [
      | some w ↦
          if window_admits w.expected claim.actor.kind
          then grant_claim c claim at
          else rejected "reset claim actor does not match the window's expected actor (C6)"
      | none ↦
          if agent_invited c.s.episode && not (same_kind claim.actor.kind ActorKind.agent)
          then refuse_claim c claim at
          else grant_claim c claim at
    ]

unfoldable pub on_claim_released : Ctx → ClaimId → MonoNs → Outcome Ctx
unfolding episode emit claim_event
on_claim_released c id at = elim c.s.claim [
  | none ↦ rejected "no active claim"
  | some k ↦
      if not (k.id == id)
      then rejected "claim id mismatch"
      else if is_intervention c.s.episode
      then rejected "release the intervention (release/retake), not the claim"
      else do
        let c1 = record c { s = record (c.s) { claim = none } }
        e ← episode c1
        done (emit c1 (claim_event at e.id ClaimEventKind.released k ""))
]

unfoldable pub clutch_claim : SessionConfig → ℕ → ActiveClaim
unfolding of_kind
clutch_claim cfg seq = record {
  id = "clutch-" <> decimal seq;
  source = cfg.clutch_source;
  actor = of_kind cfg.clutch_actor;
  self_initiated = true;
}

-- The claim of an admitted clutch edge, granted and engaged at once.
unfoldable pub admit_clutch : Ctx → ActiveClaim → MonoNs → Outcome Ctx
unfolding episode emit claim_event begin_engage
admit_clutch c claim at = do
  e ← episode c
  let c1 = emit c (claim_event at e.id ClaimEventKind.requested claim "self-initiated (clutch)")
  let c2 = emit c1 (claim_event at e.id ClaimEventKind.granted claim "self-initiated (clutch)")
  begin_engage (record c2 { s = record (c2.s) { claim = some claim } }) at

-- A clutch edge that may claim: it is admitted, or the refusal is recorded.
unfoldable pub claim_by_clutch : Ctx → MonoNs → Outcome Ctx
unfolding clutch_claim admit_clutch refuse_claim
claim_by_clutch c at =
    let c1 = record c { s = record (c.s) { clutch_seq = u32 (c.s.clutch_seq + 1) } } in
    let claim = clutch_claim c.cfg c1.s.clutch_seq in
    if not (agent_invited c.s.episode) || same_kind c.cfg.clutch_actor ActorKind.agent
    then admit_clutch c1 claim at
    else refuse_claim c1 claim at

-- Engaged edge: requested and granted in one step, unless its actor is refused.
unfoldable pub clutch_in : Ctx → MonoNs → Outcome Ctx
unfolding claim_by_clutch
clutch_in c at =
    if is_none c.s.claim && is_running c.s.episode then claim_by_clutch c at else done c

abbrev pub self_initiated : Option ActiveClaim → Bool
self_initiated none = false
self_initiated (some k) = k.self_initiated

unfoldable pub on_clutch : Ctx → Bool → MonoNs → Outcome Ctx
unfolding clutch_in begin_release
on_clutch c engaged at =
    if engaged
    then clutch_in c at
    else if is_settle c.s.episode && self_initiated c.s.claim
    then begin_release c at
    else done c
