-- ===== src/Session/Guarantees/Freeze.antt =====
-- Grants are frozen while an episode is active (FSM.md §7), in session.rs.
use waddle_sdk.Prelude.{◌≡◌, true, List, [], ◌∷◌, arith}
use waddle_sdk.Outcome.{Outcome, done}
use waddle_sdk.Types.Time.{MonoNs}
use waddle_sdk.Types.{GrantStatus}
use waddle_sdk.GrantHealth.{ProxySample, GrantHealthEntry, observe}
use waddle_sdk.Session.State.{SessionConfig}
use waddle_sdk.Session.Phases.{is_active as has_active_episode}
use waddle_sdk.Session.Context.{Ctx}
use waddle_sdk.Session.Handlers.Plane.{observe_all, on_proxy_signals}

-- The same grants in the same order, and each that was active is active.
abbrev pub NoneDemoted : List GrantHealthEntry → List GrantHealthEntry → Type 0
NoneDemoted [] [] = Unit
NoneDemoted [] (h ∷ hs) = ⊥
NoneDemoted (g ∷ gs) [] = ⊥
NoneDemoted (g ∷ gs) (h ∷ hs) =
    (g.verb ≡ h.verb)
    × (g.status ≡ GrantStatus.active → h.status ≡ GrantStatus.active)
    × NoneDemoted gs hs

observe_all-NoneDemoted :
    (cfg : SessionConfig) (sample : ProxySample) (gs : List GrantHealthEntry)
    → NoneDemoted gs (observe_all cfg sample gs)
unfolding observe_all observe
observe_all-NoneDemoted cfg sample [] = tt
observe_all-NoneDemoted cfg sample (g ∷ gs) =
    (ground arith, ground arith, observe_all-NoneDemoted cfg sample gs)

abbrev pub GrantsKept : Ctx → Outcome Ctx → Type 0
GrantsKept c (done d) = NoneDemoted c.s.grants d.s.grants
GrantsKept c _ = ⊥

-- While an episode is active, a sample of the proxy signals is accepted and demotes no grant: each
-- grant stands in its place with its verb, and is active if it was.
pub on_proxy_signals_frozen :
    (c : Ctx) (sample : ProxySample) (at : MonoNs)
    → has_active_episode c.s.episode ≡ true
    → GrantsKept c (on_proxy_signals c sample at)
unfolding on_proxy_signals
on_proxy_signals_frozen c sample at a = rw a (observe_all-NoneDemoted c.cfg sample c.s.grants)
