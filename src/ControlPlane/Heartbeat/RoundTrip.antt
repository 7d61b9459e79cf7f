-- ===== src/ControlPlane/Heartbeat/RoundTrip.antt =====
-- What a ping reports of the acks before it, for waddle-core/crates/waddle-controlplane/src/heartbeat.rs.
use waddle_sdk.Prelude.{
  ◌≡◌, refl, ap, subst, sym, ◌∙◌, Bool, true, false, none, List, [], ◌∷◌, String, if◌then◌else◌,
  arith, Bool-cases, inl, inr,
}
use waddle_sdk.Prelude.Int.{ℤ, pos, ◌≤ℤ◌, ◌-ℤ◌, -ℤ_parts, ltb_ℤ}
use waddle_sdk.Prelude.Float.{F64Ops}
use waddle_sdk.Types.Time.{MonoNs, i64_min, i64_max}
use waddle_sdk.Types.Wrapping.{sub_i64, sub_i64_exact}
use waddle_sdk.ControlPlane.Heartbeat.{
  HeartbeatTracker, ProxyInputs, or_zero, build_ping, is_zero, note_ack,
}

-- An ack: the instant that it echoes, and the instant at which it is noted.
abbrev pub Ack : Type 0
Ack = ℤ × MonoNs

-- Every difference of two instants is an `i64`.
abbrev pub InRange : List Ack → Type 0
InRange [] = Unit
InRange ((echo, now) ∷ acks) = (i64_min ≤ℤ now -ℤ echo) × (now -ℤ echo ≤ℤ i64_max) × InRange acks

-- The newest ack last.
unfoldable pub note_all : HeartbeatTracker → List Ack → HeartbeatTracker
unfolding note_ack
note_all tracker [] = tracker
note_all tracker ((echo, now) ∷ acks) = note_all (note_ack tracker echo now).0 acks

-- The round trip of the newest ack that echoes a ping sent at a nonzero instant and not after the ack.
unfoldable pub last_round_trip : ℤ → List Ack → ℤ
last_round_trip before [] = before
last_round_trip before ((echo, now) ∷ acks) =
    last_round_trip
      (if is_zero echo then before else if ltb_ℤ now echo then before else now -ℤ echo) acks

noted :
    (tracker : HeartbeatTracker) (echo : ℤ) (now : MonoNs)
    → i64_min ≤ℤ now -ℤ echo
    → now -ℤ echo ≤ℤ i64_max
    → or_zero (note_ack tracker echo now).0.last_rtt_ns ≡ (
        if is_zero echo
        then or_zero tracker.last_rtt_ns
        else if ltb_ℤ now echo
        then or_zero tracker.last_rtt_ns
        else now -ℤ echo)
unfolding note_ack
noted tracker echo now lo hi = elim (Bool-cases (is_zero echo)) [
  | inl e ↦ rw e refl
  | inr e ↦ elim (Bool-cases (ltb_ℤ now echo)) [
    | inl l ↦ rw (e, l, before true (ground (arith, l, -ℤ_parts now echo))) refl
    | inr l ↦
        rw (e, l, before false (ground (arith, l, -ℤ_parts now echo)))
          (sub_i64_exact now echo lo hi)
  ]
]
  where
    before : (b : Bool) → ltb_ℤ (now -ℤ echo) (pos 0) ≡ b → ltb_ℤ (sub_i64 now echo) (pos 0) ≡ b
    before b h = subst (λ d. ltb_ℤ d (pos 0) ≡ b) (sym (sub_i64_exact now echo lo hi)) h

acked :
    (tracker : HeartbeatTracker) (acks : List Ack)
    → InRange acks
    → or_zero (note_all tracker acks).last_rtt_ns
      ≡ last_round_trip (or_zero tracker.last_rtt_ns) acks
unfolding note_all last_round_trip note_ack
acked tracker [] h = refl
acked tracker ((echo, now) ∷ acks) h =
    acked (note_ack tracker echo now).0 acks h.2
    ∙ ap (λ ns. last_round_trip ns acks) (noted tracker echo now h.0 h.1)

-- A ping reports, whatever acks came before it, the round trip of the newest one that echoes a ping
-- with a nonzero instant and is not noted before that instant, and zero if there is none, as long as no
-- difference of the instants leaves the `i64` range.
pub build_ping-note_all :
    {F M : Type 0} (f64 : F64Ops F) (session_id : String) (now : MonoNs) (inputs : ProxyInputs F)
    (measurements : List M) (acks : List Ack)
    → InRange acks
    → (build_ping f64
        (note_all (record { last_rtt_ns = none }) acks)
        session_id
        now
        inputs
        measurements).signals.control_rtt_ns
      ≡ last_round_trip (pos 0) acks
unfolding build_ping
build_ping-note_all f64 session_id now inputs measurements acks h =
    acked (record { last_rtt_ns = none }) acks h
