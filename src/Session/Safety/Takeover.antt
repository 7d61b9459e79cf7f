-- ===== src/Session/Safety/Takeover.antt =====
-- The claim and takeover handlers of session.rs keep the invariant and do not panic.
use waddle_sdk.Prelude.{Bool, true, false, ◌≡◌, Option, none, some, is_some, arith}
use waddle_sdk.Types.Time.{MonoNs}
use waddle_sdk.Types.{ClaimId, Verb}
use waddle_sdk.Session.Episode.{EpisodeState, ActiveClaim}
use waddle_sdk.Session.Emission.{FaultKind}
use waddle_sdk.Session.Context.{Ctx}
use waddle_sdk.Session.Engage.{mint_engage_handoff, begin_engage, begin_release}
use waddle_sdk.Session.Handlers.Claims.{on_claim_requested, on_claim_granted, on_claim_released}
use waddle_sdk.Session.Handlers.Takeover.{
  on_engage, on_chunk_boundary_reached, on_release, on_verb_result, on_stall_detected,
  on_ticks_resumed,
}
use waddle_sdk.Session.Phases.{is_engage, running?, settle?}
use waddle_sdk.Session.Safety.Invariant.{Inv, Keeps}
use waddle_sdk.Session.Safety.Closing.{at_episode}

module _ (c : Ctx) where
  pub on_claim_requested-Keeps :
      (o : Option EpisodeState) (k : ActiveClaim) (at : MonoNs)
      → Inv (at_episode c o).s
      → Keeps (on_claim_requested (at_episode c o) k at)
  unfolding on_claim_requested
  on_claim_requested-Keeps none k at v = tt
  on_claim_requested-Keeps (some e) k at v = ground arith

  pub on_claim_granted-Keeps :
      (o : Option EpisodeState) (k : ActiveClaim) (at : MonoNs)
      → Inv (at_episode c o).s
      → Keeps (on_claim_granted (at_episode c o) k at)
  unfolding on_claim_granted
  on_claim_granted-Keeps none k at v = tt
  on_claim_granted-Keeps (some e) k at v = ground arith

  pub on_claim_released-Keeps :
      (o : Option EpisodeState) (id : ClaimId) (at : MonoNs)
      → Inv (at_episode c o).s
      → Keeps (on_claim_released (at_episode c o) id at)
  unfolding on_claim_released
  on_claim_released-Keeps none id at v = ground arith
  on_claim_released-Keeps (some e) id at v = ground arith

  -- The lease operation that takes the claimant's lease over.
  pub mint_engage_handoff-Keeps :
      (o : Option EpisodeState)
      → is_engage o ≡ true
      → Inv (at_episode c o).s
      → Keeps (mint_engage_handoff (at_episode c o))
  unfolding mint_engage_handoff
  mint_engage_handoff-Keeps none g v = cc
  mint_engage_handoff-Keeps (some e) g v = ground arith

  pub begin_engage-Keeps :
      (e : EpisodeState) (at : MonoNs)
      → running? e.phase ≡ true
      → is_some c.s.claim ≡ true
      → Inv (at_episode c (some e)).s
      → Keeps (begin_engage (at_episode c (some e)) at)
  unfolding begin_engage
  begin_engage-Keeps e at p k v = ground arith

  pub begin_release-Keeps :
      (e : EpisodeState) (at : MonoNs)
      → settle? e.phase ≡ true
      → Inv (at_episode c (some e)).s
      → Keeps (begin_release (at_episode c (some e)) at)
  unfolding begin_release
  begin_release-Keeps e at p v = ground arith

  pub on_chunk_boundary_reached-Keeps :
      (o : Option EpisodeState) (at : MonoNs)
      → Inv (at_episode c o).s
      → Keeps (on_chunk_boundary_reached (at_episode c o) at)
  unfolding on_chunk_boundary_reached
  on_chunk_boundary_reached-Keeps none at v = ground arith
  on_chunk_boundary_reached-Keeps (some e) at v = ground arith

  pub on_verb_result-Keeps :
      (o : Option EpisodeState) (verb : Verb) (result : Bool) (fault : Option FaultKind)
      (at : MonoNs)
      → Inv (at_episode c o).s
      → Keeps (on_verb_result (at_episode c o) verb result fault at)
  unfolding on_verb_result
  on_verb_result-Keeps none verb result fault at v = ground arith
  on_verb_result-Keeps (some e) Verb.hold true fault at v =
      ground (arith, mint_engage_handoff-Keeps (some e))
  on_verb_result-Keeps (some e) Verb.hold false none at v = ground arith
  on_verb_result-Keeps (some e) Verb.hold false (some fault) at v = ground arith
  on_verb_result-Keeps (some e) _ true fault at v = ground arith
  on_verb_result-Keeps (some e) _ false none at v = ground arith
  on_verb_result-Keeps (some e) _ false (some fault) at v = ground arith

  pub on_stall_detected-Keeps :
      (o : Option EpisodeState) (at : MonoNs)
      → Inv (at_episode c o).s
      → Keeps (on_stall_detected (at_episode c o) at)
  unfolding on_stall_detected
  on_stall_detected-Keeps none at v = ground arith
  on_stall_detected-Keeps (some e) at v = ground arith

  pub on_ticks_resumed-Keeps :
      (o : Option EpisodeState) (at : MonoNs)
      → Inv (at_episode c o).s
      → Keeps (on_ticks_resumed (at_episode c o) at)
  unfolding on_ticks_resumed
  on_ticks_resumed-Keeps none at v = ground arith
  on_ticks_resumed-Keeps (some e) at v = ground arith

  pub on_engage-Keeps :
      (o : Option EpisodeState) (id : ClaimId) (at : MonoNs)
      → Inv (at_episode c o).s
      → Keeps (on_engage (at_episode c o) id at)
  unfolding on_engage
  on_engage-Keeps none id at v = tt
  on_engage-Keeps (some e) id at v = ground (arith, begin_engage-Keeps e at)

  pub on_release-Keeps :
      (o : Option EpisodeState) (id : ClaimId) (at : MonoNs)
      → Inv (at_episode c o).s
      → Keeps (on_release (at_episode c o) id at)
  unfolding on_release
  on_release-Keeps none id at v = tt
  on_release-Keeps (some e) id at v = ground (arith, begin_release-Keeps e at)
