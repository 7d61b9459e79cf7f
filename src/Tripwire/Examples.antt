-- ===== src/Tripwire/Examples.antt =====
-- The watchdogs of waddle-core/crates/waddle-tripwire/src/lib.rs on concrete snapshots.
use waddle_sdk.Prelude.{
  ◌≡◌, ◌≢◌, refl, arith, false, none, some, List, [], ◌∷◌, String, ◌==◌, eq_iff,
}
use waddle_sdk.Prelude.Int.{ℤ, pos}
use waddle_sdk.Prelude.Float.Samples.{thousandths}
use waddle_sdk.Outcome.{done}
use waddle_sdk.Types.{Verb}
use waddle_sdk.Types.Time.{MonoNs}
use waddle_sdk.Tripwire.{ObsSnapshot, TripwireKind, Tripwire, Formats, armed}
use waddle_sdk.Tripwire.Outages.{watch_all, outages, watch_all-outages}
use waddle_sdk.Tripwire.Edges.{Look, OwnNames, requests, run, run-requests}

abbrev plain : Formats ℤ
plain = record { point = λ p. "(x, y, z)"; fixed = λ digits x. "x" }

abbrev wires : List (Tripwire ℤ)
wires =
    record {
      name = "force";
      kind = TripwireKind.force_threshold (pos 50);
      requested_verb = Verb.hold;
    }
    ∷ record {
      name = "stale";
      kind = TripwireKind.staleness (pos 100);
      requested_verb = Verb.estop;
    }
    ∷ []

abbrev pressed : ℤ → ℤ → ObsSnapshot ℤ
pressed at f = record { at = at; joint_pos = []; ee_pos = none; force_n = some f }

abbrev looks : List (Look ℤ)
looks =
    (some (pressed (pos 10) (pos 70)), pos 20)
    ∷ (none, pos 30)
    ∷ (some (pressed (pos 10) (pos 70)), pos 200)
    ∷ (some (pressed (pos 205) (pos 3)), pos 210)
    ∷ []

different : (a b : String) → a == b ≡ false → a ≢ b
different a b e h = ground (arith, e, (eq_iff a b).1 h)

wires-OwnNames : OwnNames wires
wires-OwnNames = ((different "force" "stale" refl, tt), (tt, tt))

run-requests_example :
    run thousandths plain wires (armed wires) looks
    ≡ done (requests thousandths plain wires (λ _. false) looks)
run-requests_example = run-requests thousandths plain wires looks wires-OwnNames

abbrev acks : List (ℤ × MonoNs)
acks = (pos 5, pos 6) ∷ (pos 5, pos 90) ∷ (pos 5, pos 120) ∷ (pos 125, pos 130) ∷ []

watch_all-outages_example : watch_all (pos 50) false acks ≡ outages (pos 50) false acks
watch_all-outages_example = watch_all-outages (pos 50) acks
