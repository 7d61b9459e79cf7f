-- ===== src/GrantHealth/Streaks.antt =====
-- Rows of samples through `observe` and `apply_pending` of granthealth.rs.
use waddle_sdk.Prelude.{
  ℕ, zero, suc, ◌^◌, ◌≤◌, ◌<◌, ◌≡◌, Bool, true, Option, none, some, is_some, leb, arith, String,
}
use waddle_sdk.Prelude.Int.{ℤ, ltb_ℤ}
use waddle_sdk.Types.{GrantStatus, is_demoted}
use waddle_sdk.GrantHealth.{ProxySample, GrantHealthEntry, observe, observed_ns, apply_pending}

module _ (sample : ProxySample) (demote_after promote_after : ℕ) (good_band : ℤ → ℤ) where
  -- The entry after `n` samples of that kind.
  pub observe_times : ℕ → GrantHealthEntry → GrantHealthEntry
  observe_times zero e = e
  observe_times (suc n) e =
      (observe (observe_times n e) sample demote_after promote_after good_band).0

-- An entry that is active, as after `n` bad samples in a row.
pub record AfterBad (bound : ℤ) (demote_after n : ℕ) (e : GrantHealthEntry) : Type 0 where
  bounded : e.declared_bound_ns ≡ some bound
  active : e.status ≡ GrantStatus.active
  streak : e.bad_streak ≡ n
  asked : is_some e.pending_demote ≡ leb demote_after n

one_more :
    (e : GrantHealthEntry) (b : Option ℤ) (sample : ProxySample) (demote_after promote_after : ℕ)
    (good_band : ℤ → ℤ) (bound : ℤ) (n : ℕ)
    → ltb_ℤ bound (observed_ns sample) ≡ true
    → suc n < 2 ^ 32
    → AfterBad bound demote_after n (record e { declared_bound_ns = b })
    → AfterBad bound demote_after
        (suc n)
        (observe (record e { declared_bound_ns = b }) sample demote_after promote_after good_band).0
unfolding observe
one_more e none sample demote_after promote_after good_band bound n h l a = cc a.bounded
one_more e (some b) sample demote_after promote_after good_band bound n h l a = ground arith

observed_bad :
    (sample : ProxySample) (demote_after promote_after : ℕ) (good_band : ℤ → ℤ) (bound : ℤ) (n : ℕ)
    (e : GrantHealthEntry)
    → ltb_ℤ bound (observed_ns sample) ≡ true
    → n < 2 ^ 32
    → AfterBad bound demote_after 0 e
    → AfterBad bound demote_after n (observe_times sample demote_after promote_after good_band n e)
unfolding observe_times
observed_bad sample demote_after promote_after good_band bound zero e h l a = a
observed_bad sample demote_after promote_after good_band bound (suc n) e h l a =
    one_more (observe_times sample demote_after promote_after good_band n e) _ sample demote_after
      promote_after good_band bound n h l
      (observed_bad sample demote_after promote_after good_band bound n e h (omega (arith, l)) a)

demoted_by :
    (e : GrantHealthEntry) (p : Option String) (b : Bool)
    → e.status ≡ GrantStatus.active
    → is_some p ≡ b
    → is_demoted (apply_pending (record e { pending_demote = p })).0.status ≡ b
unfolding apply_pending
demoted_by e none b a q = ground arith
demoted_by e (some reason) b a q = ground arith

unobserved :
    (e : GrantHealthEntry) (bound : ℤ) (demote_after : ℕ)
    → 1 ≤ demote_after
    → e.declared_bound_ns ≡ some bound
    → e.status ≡ GrantStatus.active
    → e.bad_streak ≡ 0
    → e.pending_demote ≡ none
    → AfterBad bound demote_after 0 e
unobserved e bound demote_after o b a z p = record {
  bounded = b;
  active = a;
  streak = z;
  asked = ground arith;
}

-- An active grant with a declared bound, no demotion pending and no bad samples behind it, observed
-- `n` times in a row above its bound, fewer than 2 ^ 32 times and with a threshold of at least one:
-- its status is still active, and the next planning boundary demotes it exactly if `n` has
-- reached the threshold `demote_after`.
pub observe_times-apply_pending :
    (sample : ProxySample) (demote_after promote_after : ℕ) (good_band : ℤ → ℤ) (bound : ℤ) (n : ℕ)
    (e : GrantHealthEntry)
    → ltb_ℤ bound (observed_ns sample) ≡ true
    → n < 2 ^ 32
    → 1 ≤ demote_after
    → e.declared_bound_ns ≡ some bound
    → e.status ≡ GrantStatus.active
    → e.bad_streak ≡ 0
    → e.pending_demote ≡ none
    → let d = observe_times sample demote_after promote_after good_band n e in
      (d.status ≡ GrantStatus.active) × (is_demoted (apply_pending d).0.status ≡ leb demote_after n)
observe_times-apply_pending sample demote_after promote_after good_band bound n e h l o b a z p =
    let d = observe_times sample demote_after promote_after good_band n e in
    let after =
      observed_bad sample demote_after promote_after good_band bound n e h l
        (unobserved e bound demote_after o b a z p) in
    (after.active, demoted_by d d.pending_demote (leb demote_after n) after.active after.asked)
