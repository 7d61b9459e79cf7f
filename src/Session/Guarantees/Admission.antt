-- ===== src/Session/Guarantees/Admission.antt =====
-- Whose claims the session admits: the answer to a claim grant in session.rs.
use waddle_sdk.Prelude.{
  ◌≡◌, true, false, refl, ◌&&◌, not, ◌⊎◌, inl, Option, none, some, is_some, if◌then◌else◌, arith,
}
use waddle_sdk.Outcome.{Outcome, done, rejected, panicked}
use waddle_sdk.Types.Time.{MonoNs}
use waddle_sdk.Types.Actor.{ActorKind}
use waddle_sdk.Session.Episode.{EpisodeState, ResetWindowState, ActiveClaim}
use waddle_sdk.Session.Phases.{is_active, reset_phase?}
use waddle_sdk.Session.Context.{Ctx}
use waddle_sdk.Session.Handlers.Claims.{on_claim_granted}
use waddle_sdk.Session.Safety.Closing.{at_episode}

-- A window is served by the actor that it expects, one for a teleoperator by a site operator too.
abbrev pub Serves : ActorKind → ActorKind → Type 0
Serves ActorKind.teleoperator actor =
    (actor ≡ ActorKind.teleoperator) ⊎ (actor ≡ ActorKind.site_operator)
Serves expected actor = actor ≡ expected

-- Outside a window, an agent-invited episode is for agents.
abbrev pub Free : EpisodeState → ActorKind → Type 0
Free e actor = e.agent_invited ≡ true → actor ≡ ActorKind.agent

abbrev pub AdmittedAt : EpisodeState → Option ResetWindowState → ActorKind → Type 0
AdmittedAt e none actor = Free e actor
AdmittedAt e (some w) actor =
    if reset_phase? e.phase && not w.engaged then Serves w.expected actor else Free e actor

abbrev pub Admitted : Option EpisodeState → ActorKind → Type 0
Admitted none actor = ⊥
Admitted (some e) actor = AdmittedAt e e.reset_window actor

-- What an answered grant may have done.
abbrev pub Answered : Ctx → ActiveClaim → Outcome Ctx → Type 0
Answered c k (done d) =
    (d.s.episode ≡ c.s.episode)
    × (is_active c.s.episode ≡ true)
    × (c.s.claim ≡ none)
    × ((Admitted c.s.episode k.actor.kind × (d.s.claim ≡ some k))
        ⊎ ((¬ Admitted c.s.episode k.actor.kind) × (d.s.claim ≡ none)))
Answered c k (rejected reason) =
    (is_active c.s.episode ≡ false)
    ⊎ (is_some c.s.claim ≡ true)
    ⊎ (¬ Admitted c.s.episode k.actor.kind)
Answered c k (panicked m) = ⊥

abbrev with_claim : Ctx → EpisodeState → Option ResetWindowState → Option ActiveClaim → Ctx
with_claim c e w k = record c {
  s = record (c.s) { episode = some (record e { reset_window = w }); claim = k };
}

by_parts :
    (c : Ctx) (e : EpisodeState) (w : Option ResetWindowState) (held : Option ActiveClaim)
    (k : ActiveClaim) (at : MonoNs)
    → Answered (with_claim c e w held) k (on_claim_granted (with_claim c e w held) k at)
unfolding on_claim_granted
by_parts c e none none k at = ground arith
by_parts c e (some w) none k at = ground arith
by_parts c e w (some h) k at = ground arith

granted_at :
    (c : Ctx) (o : Option EpisodeState) (k : ActiveClaim) (at : MonoNs)
    → Answered (at_episode c o) k (on_claim_granted (at_episode c o) k at)
unfolding on_claim_granted
granted_at c none k at = inl refl
granted_at c (some e) k at = by_parts c e e.reset_window c.s.claim k at

-- A granted claim never moves the episode and never panics. It is accepted only where an episode is
-- active and no claim is in force; it then becomes the claim in force if its actor is admitted, and otherwise there is
-- still none. It is rejected only where no episode is active, a claim is in force or its actor is
-- not admitted. Admitted means: at a reset window that is open and not engaged, an actor that
-- serves it; anywhere else, an agent if the episode is agent-invited, and anybody if it is not.
pub on_claim_granted-Answered :
    (c : Ctx) (k : ActiveClaim) (at : MonoNs) → Answered c k (on_claim_granted c k at)
on_claim_granted-Answered c k at = granted_at c c.s.episode k at
