-- ===== src/Sidecar/Tally.antt =====
-- Counting the claim spans of builder.rs, and the grants that they stand for.
use waddle_sdk.Prelude.{
  ◌≡◌, refl, ℕ, ◌+◌, Bool, true, false, List, [], ◌∷◌, ◌++◌, String, inl, inr, Bool-cases, arith,
}
use waddle_sdk.Prelude.Int.{ℤ}
use waddle_sdk.Session.Emission.{ClaimEventKind, Body, EpisodeEvent}
use waddle_sdk.Sidecar.{Span, Claim, span, closed}
use waddle_sdk.Sidecar.Spans.{same_claim, remove_claim}
use waddle_sdk.Sidecar.Finish.{left_open}

-- A property of claims and of the instants from which they hold.
abbrev pub ClaimTest : Type 0
ClaimTest = Claim → ℤ → Bool

abbrev pub counted : Bool → ℕ
counted true = 1
counted false = 0

-- How many spans have the property.
abbrev pub tally : ClaimTest → List (Claim × Span) → ℕ
tally p [] = 0
tally p ((c, s) ∷ spans) = counted (p c s.t_start_ns) + tally p spans

abbrev pub grants_of : ClaimTest → ℤ → ClaimEventKind → Claim → ℕ
grants_of p t ClaimEventKind.granted c = counted (p c t)
grants_of p t _ c = 0

abbrev pub is_grant : ClaimTest → ℤ → Body → ℕ
is_grant p t (Body.claim kind claim_id episode_id actor name self detail) =
    grants_of p t kind (record {
      claim_id = claim_id;
      episode_id = episode_id;
      actor = actor;
      source_name = name;
      self_initiated = self;
    })
is_grant p t _ = 0

-- How many of the granted claims have it at the instant of their grant.
abbrev pub grants : ClaimTest → List EpisodeEvent → ℕ
grants p [] = 0
grants p (e ∷ es) = is_grant p e.t_ns e.event + grants p es

abbrev pub open_tally : ClaimTest → List (ℤ × Claim) → ℕ
open_tally p [] = 0
open_tally p ((t, c) ∷ cs) = counted (p c t) + open_tally p cs

pub tally-append :
    (p : ClaimTest) (xs ys : List (Claim × Span)) → tally p (xs ++ ys) ≡ tally p xs + tally p ys
tally-append p [] ys = omega arith
tally-append p ((c, s) ∷ xs) ys = omega (arith, tally-append p xs ys)

pub open_tally-append :
    (p : ClaimTest) (xs ys : List (ℤ × Claim))
    → open_tally p (xs ++ ys) ≡ open_tally p xs + open_tally p ys
open_tally-append p [] ys = omega arith
open_tally-append p ((t, c) ∷ xs) ys = omega (arith, open_tally-append p xs ys)

pub tally-remove_claim :
    (p : ClaimTest) (id : String) (t : ℤ) (spans : List (Claim × Span)) (cs : List (ℤ × Claim))
    → tally p (closed (remove_claim id cs).0 t spans) + open_tally p (remove_claim id cs).1
      ≡ tally p spans + open_tally p cs
unfolding remove_claim
tally-remove_claim p id t spans [] = refl
tally-remove_claim p id t spans (c ∷ cs) = elim (Bool-cases (same_claim id c)) [
  | inl y ↦ rw y (omega (arith, tally-append p spans ((c.1, span c.0 t) ∷ [])))
  | inr n ↦ rw n (omega (arith, tally-remove_claim p id t spans cs))
]

same : (p : ClaimTest) (cs : List (ℤ × Claim)) → tally p (left_open cs) ≡ open_tally p cs
same p [] = refl
same p ((t, c) ∷ cs) = omega (arith, same p cs)

pub tally-left_open :
    (p : ClaimTest) (claims : List (Claim × Span)) (cs : List (ℤ × Claim))
    → tally p (claims ++ left_open cs) ≡ tally p claims + open_tally p cs
tally-left_open p claims cs = omega (arith, tally-append p claims (left_open cs), same p cs)
