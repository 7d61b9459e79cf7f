-- ===== src/Session/Safety/Claims.antt =====
-- Retake and the clutch of session.rs keep the invariant and do not panic.
use waddle_sdk.Prelude.{
  Bool, true, false, ◌≡◌, refl, Option, none, some, ℕ, ◌+◌, ◌||◌, not, inl, inr, is_some,
  Bool-cases, arith,
}
use waddle_sdk.GrantHealth.{u32}
use waddle_sdk.Types.Time.{MonoNs}
use waddle_sdk.Types.{ClaimId, EpisodeId, InterventionPhase, TerminalOutcome}
use waddle_sdk.Types.Actor.{ActorKind, same_kind}
use waddle_sdk.Session.Episode.{EpisodeState, ActiveClaim}
use waddle_sdk.Session.Emission.{Body, event_of}
use waddle_sdk.Session.Effect.{Effect}
use waddle_sdk.Session.Context.{Ctx, emit}
use waddle_sdk.Session.Engage.{begin_engage}
use waddle_sdk.Session.Handlers.Claims.{
  on_clutch, clutch_in, clutch_claim, admit_clutch, refuse_claim, claim_by_clutch,
}
use waddle_sdk.Session.Handlers.Takeover.{on_retake, retake_now, retake_mode}
use waddle_sdk.Session.Phases.{running?}
use waddle_sdk.Session.Safety.Invariant.{Inv, Keeps}
use waddle_sdk.Session.Safety.Closing.{at_episode, by_episode, no_post_window, close_run-push-Keeps}
use waddle_sdk.Session.Safety.Takeover.{begin_engage-Keeps, begin_release-Keeps}

retake_now-Keeps :
    (c : Ctx) (e : EpisodeState) (id : ClaimId) (initiator : ActorKind) (successor : EpisodeId)
    (at : MonoNs)
    → no_post_window e.reset_window ≡ true
    → Keeps (retake_now (at_episode c (some e)) id initiator successor at)
unfolding retake_now
retake_now-Keeps c e id initiator successor at w =
    close_run-push-Keeps
      (emit (at_episode c (some e))
        (event_of at (some e.id) (Body.intervention InterventionPhase.retake id)))
      e at TerminalOutcome.aborted_retake "retake" (some TerminalOutcome.aborted_retake) false
      (Effect.open_successor e.id successor id true (retake_mode initiator)) refl w

claimed-Inv :
    (c : Ctx) (e : EpisodeState) (k : ActiveClaim) (b : ℕ)
    → running? e.phase ≡ true
    → Inv (at_episode c (some e)).s
    → Inv (record (c.s) { episode = some e; claim = some k; buffered_events = b })
claimed-Inv c e k b p v = ground arith

engage_at :
    (c : Ctx) (e : EpisodeState) (at : MonoNs)
    → c.s.episode ≡ some e
    → running? e.phase ≡ true
    → is_some c.s.claim ≡ true
    → Inv c.s
    → Keeps (begin_engage c at)
engage_at c e at q p =
    by_episode (λ x. is_some x.s.claim ≡ true → Inv x.s → Keeps (begin_engage x at)) c e q
      (begin_engage-Keeps c e at p)

admit_clutch-Keeps :
    (c : Ctx) (e : EpisodeState) (k : ActiveClaim) (at : MonoNs)
    → running? e.phase ≡ true
    → Inv (at_episode c (some e)).s
    → Keeps (admit_clutch (at_episode c (some e)) k at)
unfolding admit_clutch
admit_clutch-Keeps c e k at p v = engage_at _ e at refl p refl (claimed-Inv c e k _ p v)

refuse_claim-Keeps :
    (c : Ctx) (e : EpisodeState) (k : ActiveClaim) (at : MonoNs)
    → Inv (at_episode c (some e)).s
    → Keeps (refuse_claim (at_episode c (some e)) k at)
unfolding refuse_claim
refuse_claim-Keeps c e k at v = ground arith

abbrev next_seq : Ctx → Ctx
next_seq c = record c { s = record (c.s) { clutch_seq = u32 (c.s.clutch_seq + 1) } }

next_seq-Inv :
    (c : Ctx) (e : EpisodeState)
    → Inv (at_episode c (some e)).s
    → Inv (at_episode (next_seq c) (some e)).s
next_seq-Inv c e v = ground arith

module _ (c : Ctx) where
  pub on_retake-Keeps :
      (o : Option EpisodeState) (id : ClaimId) (initiator : ActorKind) (successor : EpisodeId)
      (at : MonoNs)
      → Inv (at_episode c o).s
      → Keeps (on_retake (at_episode c o) id initiator successor at)
  unfolding on_retake
  on_retake-Keeps none id initiator successor at v = tt
  on_retake-Keeps (some e) id initiator successor at v =
      ground (arith, retake_now-Keeps c e id initiator successor at)

  claim_by_clutch-Keeps :
      (e : EpisodeState) (at : MonoNs)
      → running? e.phase ≡ true
      → Inv (at_episode c (some e)).s
      → Keeps (claim_by_clutch (at_episode c (some e)) at)
  unfolding claim_by_clutch
  claim_by_clutch-Keeps e at p v =
      let k = clutch_claim c.cfg (u32 (c.s.clutch_seq + 1)) in
      elim (Bool-cases (not e.agent_invited || same_kind c.cfg.clutch_actor ActorKind.agent)) [
        | inl y ↦ rw y (admit_clutch-Keeps (next_seq c) e k at p (next_seq-Inv c e v))
        | inr n ↦ rw n (refuse_claim-Keeps (next_seq c) e k at (next_seq-Inv c e v))
      ]

  clutch_in-Keeps :
      (o : Option EpisodeState) (at : MonoNs)
      → Inv (at_episode c o).s
      → Keeps (clutch_in (at_episode c o) at)
  unfolding clutch_in
  clutch_in-Keeps none at v = ground arith
  clutch_in-Keeps (some e) at v = ground (arith, claim_by_clutch-Keeps e at)

  pub on_clutch-Keeps :
      (o : Option EpisodeState) (engaged : Bool) (at : MonoNs)
      → Inv (at_episode c o).s
      → Keeps (on_clutch (at_episode c o) engaged at)
  unfolding on_clutch
  on_clutch-Keeps o true at v = clutch_in-Keeps o at v
  on_clutch-Keeps none false at v = ground arith
  on_clutch-Keeps (some e) false at v = ground (arith, begin_release-Keeps c e at)
