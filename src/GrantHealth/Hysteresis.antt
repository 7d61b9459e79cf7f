-- ===== src/GrantHealth/Hysteresis.antt =====
-- What grant health promises of `observe` and `apply_pending` of granthealth.rs.
use waddle_sdk.Prelude.{
  ℕ, ◌+◌, ◌≤◌, ◌≡◌, ◌≢◌, Bool, true, false, ◌⊎◌, Option, none, some, if◌then◌else◌, arith,
}
use waddle_sdk.Prelude.Int.{ℤ, ◌≤ℤ◌, ltb_ℤ}
use waddle_sdk.Types.{GrantStatus}
use waddle_sdk.GrantHealth.{u32, ProxySample, GrantHealthEntry, HealthEvent, observe}

-- The worse of the two times of a sample.
abbrev pub worst_ns : ProxySample → ℤ
worst_ns sample =
    if ltb_ℤ sample.gate_tick_p95_ns sample.callback_dispatch_p95_ns
    then sample.callback_dispatch_p95_ns
    else sample.gate_tick_p95_ns

-- A sample is good for a declared bound if it is neither above the bound nor outside the good band.
abbrev pub IsGood : Option ℤ → (ℤ → ℤ) → ProxySample → Type 0
IsGood none good_band sample = ⊥
IsGood (some bound) good_band sample =
    (worst_ns sample ≤ℤ bound) × (ltb_ℤ (worst_ns sample) (good_band bound) ≡ true)

-- The good samples in a row, after this one: one more, or none; a promotion starts the row anew, and
-- without a declared bound nothing counts.
abbrev pub Counts : Option ℤ → (ℤ → ℤ) → ProxySample → ℕ → ℕ → Bool → Type 0
Counts none good_band sample before after promoted = after ≡ before
Counts (some bound) good_band sample before after true = after ≡ 0
Counts (some bound) good_band sample before after false =
    (IsGood (some bound) good_band sample × (after ≡ u32 (before + 1)))
    ⊎ ((¬ IsGood (some bound) good_band sample) × (after ≡ 0))

abbrev pub is_repromoted : Option HealthEvent → Bool
is_repromoted (some HealthEvent.repromoted) = true
is_repromoted _ = false

-- One sample never demotes: the status is kept, or a demoted grant becomes active, and that only
-- when no partition demoted it, the event says so, and the sample is good and at least the
-- `promote_after`th good one in a row. The row of good samples is counted modulo 2^32: a good sample
-- counts one more, any other starts anew, and so does a promotion.
pub observe_status :
    (e : GrantHealthEntry) (sample : ProxySample) (demote_after promote_after : ℕ)
    (good_band : ℤ → ℤ)
    → let r = observe e sample demote_after promote_after good_band in
      Counts e.declared_bound_ns good_band sample e.good_streak r.0.good_streak (is_repromoted r.1)
      × (((r.0.status ≡ e.status) × (r.1 ≢ some HealthEvent.repromoted))
          ⊎ ((e.status ≡ GrantStatus.demoted)
              × (r.0.status ≡ GrantStatus.active)
              × (r.1 ≡ some HealthEvent.repromoted)
              × (e.partition_demoted ≡ false)
              × IsGood e.declared_bound_ns good_band sample
              × (promote_after ≤ u32 (e.good_streak + 1))))
unfolding observe
observe_status e sample demote_after promote_after good_band = ground arith
