-- ===== src/GrantHealth.antt =====
-- Live grant health, waddle-core/crates/waddle-fsm/src/granthealth.rs (FSM.md §7). The `f64`
-- product `(bound as f64 * hysteresis_ratio) as i64` is the argument `good_band`.
pub mod Hysteresis
pub mod Streaks
mod Examples
use waddle_sdk.Prelude.{
  ℕ, ◌+◌, ◌%◌, ◌^◌, Bool, true, false, ◌&&◌, not, Option, none, some, String, ◌<>◌, decimal_ℤ, leb,
  is_none, if◌then◌else◌,
}
use waddle_sdk.Prelude.Int.{ℤ, ltb_ℤ, max_ℤ}
use waddle_sdk.Types.{Verb, Grant, GrantStatus, is_active, is_demoted}

-- `u32` counters wrap, as in a release build.
abbrev pub u32 : ℕ → ℕ
u32 n = n % 2 ^ 32

-- event.rs; the measured load average is not read by grant health and is left out.
pub record ProxySample : Type 0 where
  pub control_rtt_ns : ℤ
  pub gate_tick_p95_ns : ℤ
  pub callback_dispatch_p95_ns : ℤ

pub data HealthEvent : Type 0 where
  demote_pending repromoted : HealthEvent

pub record GrantHealthEntry : Type 0 where
  pub verb : Verb
  pub status : GrantStatus
  pub pending_demote : Option String
  pub declared_bound_ns : Option ℤ
  pub partition_demoted : Bool
  pub bad_streak : ℕ
  pub good_streak : ℕ

unfoldable pub from_grant : Grant → GrantHealthEntry
from_grant g = record {
  verb = g.verb;
  status = GrantStatus.active;
  pending_demote = none;
  declared_bound_ns = g.declared_latency_bound_ns;
  partition_demoted = false;
  bad_streak = 0;
  good_streak = 0;
}

unfoldable pub observed_ns : ProxySample → ℤ
observed_ns sample = max_ℤ sample.gate_tick_p95_ns sample.callback_dispatch_p95_ns

-- `observed > bound`.
unfoldable pub observe_bad : GrantHealthEntry → ℤ → ℤ → ℕ → GrantHealthEntry × Option HealthEvent
observe_bad e observed bound demote_after =
    let streak = u32 (e.bad_streak + 1) in
    let e1 = record e { bad_streak = streak; good_streak = 0 } in
    if is_active e.status && is_none e.pending_demote && leb demote_after streak
    then (
      record e1 {
        pending_demote = some (
            "proxy signal "
            <> decimal_ℤ observed
            <> "ns exceeded declared bound "
            <> decimal_ℤ bound
            <> "ns");
      },
      some HealthEvent.demote_pending,
    )
    else (e1, none)

-- `observed < good_band`.
unfoldable pub observe_good : GrantHealthEntry → ℕ → GrantHealthEntry × Option HealthEvent
observe_good e promote_after =
    let streak = u32 (e.good_streak + 1) in
    let e1 = record e { good_streak = streak; bad_streak = 0; pending_demote = none } in
    if is_demoted e.status && not e.partition_demoted && leb promote_after streak
    then (record e1 { status = GrantStatus.active; good_streak = 0 }, some HealthEvent.repromoted)
    else (e1, none)

unfoldable pub observe :
    GrantHealthEntry → ProxySample → ℕ → ℕ → (ℤ → ℤ) → GrantHealthEntry × Option HealthEvent
unfolding observe_bad observe_good observed_ns
observe e sample demote_after promote_after good_band = elim e.declared_bound_ns [
  | none ↦ (e, none)
  | some bound ↦
      let observed = observed_ns sample in
      if ltb_ℤ bound observed
      then observe_bad e observed bound demote_after
      else if ltb_ℤ observed (good_band bound)
      then observe_good e promote_after
      else (record e { bad_streak = 0; good_streak = 0 }, none)
]

-- Apply a pending demotion at a planning boundary.
unfoldable pub apply_pending : GrantHealthEntry → GrantHealthEntry × Option String
apply_pending e = elim e.pending_demote [
  | none ↦ (e, none)
  | some reason ↦ (
    record e { pending_demote = none; status = GrantStatus.demoted; good_streak = 0 },
    some reason,
  )
]
