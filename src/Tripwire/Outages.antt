-- ===== src/Tripwire/Outages.antt =====
-- Requests of the heartbeat watchdog of waddle-core/crates/waddle-tripwire/src/lib.rs.
use waddle_sdk.Prelude.{
  ◌≡◌, refl, zero, suc, Bool, true, false, Option, none, some, List, [], ◌∷◌, ◌<>◌, decimal_ℤ,
  Bool-cases, inl, inr, arith,
}
use waddle_sdk.Prelude.Int.{ℤ, pos, negsuc, ltb_ℤ}
use waddle_sdk.Types.{Verb}
use waddle_sdk.Types.Time.{MonoNs}
use waddle_sdk.Types.Wrapping.{sub_i64}
use waddle_sdk.Tripwire.{TripwireFire, is_outage, watch}

-- What the watchdog sees, round by round: the instant of the last ack, 0 before the first, and the clock.
abbrev pub Beat : Type 0
Beat = ℤ × MonoNs

unfoldable pub watch_all : ℤ → Bool → List Beat → List (Option TripwireFire)
unfolding watch
watch_all timeout_ns fired [] = []
watch_all timeout_ns fired ((last, now) ∷ beats) =
    let r = watch timeout_ns fired last now in r.1 ∷ watch_all timeout_ns r.0 beats

-- There was an ack, and it is longer ago than the timeout.
unfoldable pub is_stale : ℤ → Beat → Bool
unfolding sub_i64
is_stale timeout_ns (pos zero, now) = false
is_stale timeout_ns (pos (suc n), now) = ltb_ℤ timeout_ns (sub_i64 now (pos (suc n)))
is_stale timeout_ns (negsuc n, now) = ltb_ℤ timeout_ns (sub_i64 now (negsuc n))

unfoldable pub hold_for : Beat → TripwireFire
unfolding decimal_ℤ sub_i64
hold_for (last, now) = record {
  name = "control-plane-heartbeat";
  requested_verb = Verb.hold;
  detail = "no heartbeat for " <> (decimal_ℤ (sub_i64 now last) <> " ns");
  at = now;
}

-- The request of a round: before it the acks were stale or not, and now they are or not.
abbrev pub on_edge : Bool → Bool → Beat → Option TripwireFire
unfolding hold_for
on_edge false true beat = some (hold_for beat)
on_edge before now beat = none

unfoldable pub outages : ℤ → Bool → List Beat → List (Option TripwireFire)
unfolding is_stale hold_for
outages timeout_ns before [] = []
outages timeout_ns before (beat ∷ beats) =
    let stale = is_stale timeout_ns beat in
    on_edge before stale beat ∷ outages timeout_ns stale beats

stale-is_outage :
    (timeout_ns last : ℤ) (now : MonoNs)
    → is_outage timeout_ns last now ≡ is_stale timeout_ns (last, now)
unfolding is_outage is_stale
stale-is_outage timeout_ns (pos zero) now = refl
stale-is_outage timeout_ns (pos (suc n)) now = ground arith
stale-is_outage timeout_ns (negsuc n) now = ground arith

followed :
    (timeout_ns : ℤ) (before : Bool) (beats : List Beat)
    → watch_all timeout_ns before beats ≡ outages timeout_ns before beats
unfolding watch_all outages watch hold_for
followed timeout_ns before [] = refl
followed timeout_ns false ((last, now) ∷ beats) =
    elim (Bool-cases (is_stale timeout_ns (last, now))) [
      | inl e ↦ rw (stale-is_outage timeout_ns last now, e, followed timeout_ns true beats) refl
      | inr e ↦ rw (stale-is_outage timeout_ns last now, e, followed timeout_ns false beats) refl
    ]
followed timeout_ns true ((last, now) ∷ beats) =
    elim (Bool-cases (is_stale timeout_ns (last, now))) [
      | inl e ↦ rw (stale-is_outage timeout_ns last now, e, followed timeout_ns true beats) refl
      | inr e ↦ rw (stale-is_outage timeout_ns last now, e, followed timeout_ns false beats) refl
    ]

-- The heartbeat watchdog requests HOLD, in its own name, at the round's instant and with the time
-- since the last ack, in exactly the rounds in which the acks are stale and were not in the round
-- before, so once per outage. Stale means that there was an ack, and that the time since, as an i64,
-- is longer than the timeout.
pub watch_all-outages :
    (timeout_ns : ℤ) (beats : List Beat)
    → watch_all timeout_ns false beats ≡ outages timeout_ns false beats
watch_all-outages timeout_ns beats = followed timeout_ns false beats
