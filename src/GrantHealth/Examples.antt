-- ===== src/GrantHealth/Examples.antt =====
-- Grant health of granthealth.rs on concrete samples.
use waddle_sdk.Prelude.{◌+◌, ◌≤◌, ◌≡◌, ◌≢◌, ◌⊎◌, refl, true, false, leb, arith, Option, none, some}
use waddle_sdk.Prelude.Int.{ℤ, pos, ltb_ℤ}
use waddle_sdk.Types.{Verb, GrantStatus, is_demoted}
use waddle_sdk.GrantHealth.{
  u32, ProxySample, GrantHealthEntry, HealthEvent, observe, observed_ns, apply_pending,
}
use waddle_sdk.GrantHealth.Streaks.{observe_times, observe_times-apply_pending}
use waddle_sdk.GrantHealth.Hysteresis.{Counts, IsGood, is_repromoted, observe_status}

abbrev demoted_entry : GrantHealthEntry
demoted_entry = record {
  verb = Verb.send;
  status = GrantStatus.demoted;
  pending_demote = none;
  declared_bound_ns = some (pos 50);
  partition_demoted = false;
  bad_streak = 0;
  good_streak = 2;
}

abbrev quick : ProxySample
quick = record {
  control_rtt_ns = pos 9;
  gate_tick_p95_ns = pos 10;
  callback_dispatch_p95_ns = pos 20;
}

abbrev half : ℤ → ℤ
half b = pos 25

abbrev observed : GrantHealthEntry × Option HealthEvent
observed = observe demoted_entry quick 3 3 half

repromoted : observed.0.status ≡ GrantStatus.active
unfolding observe
repromoted = refl

observe_status_example :
    Counts (some (pos 50)) half quick 2 observed.0.good_streak (is_repromoted observed.1)
    × (((observed.0.status ≡ GrantStatus.demoted) × (observed.1 ≢ some HealthEvent.repromoted))
        ⊎ ((GrantStatus.demoted ≡ GrantStatus.demoted)
            × (observed.0.status ≡ GrantStatus.active)
            × (observed.1 ≡ some HealthEvent.repromoted)
            × (false ≡ false)
            × IsGood (some (pos 50)) half quick
            × (3 ≤ u32 (2 + 1))))
observe_status_example = observe_status demoted_entry quick 3 3 half

abbrev fresh_entry : GrantHealthEntry
fresh_entry = record {
  verb = Verb.send;
  status = GrantStatus.active;
  pending_demote = none;
  declared_bound_ns = some (pos 50);
  partition_demoted = false;
  bad_streak = 0;
  good_streak = 0;
}

abbrev slow : ProxySample
slow = record {
  control_rtt_ns = pos 9;
  gate_tick_p95_ns = pos 80;
  callback_dispatch_p95_ns = pos 20;
}

above_bound : ltb_ℤ (pos 50) (observed_ns slow) ≡ true
unfolding observed_ns
above_bound = refl

observe_times-apply_pending_example :
    ((observe_times slow 3 3 half 3 fresh_entry).status ≡ GrantStatus.active)
    × (is_demoted (apply_pending (observe_times slow 3 3 half 3 fresh_entry)).0.status ≡ leb 3 3)
observe_times-apply_pending_example =
    observe_times-apply_pending slow 3 3 half (pos 50) 3 fresh_entry above_bound (omega arith)
      (omega arith) refl refl refl refl
