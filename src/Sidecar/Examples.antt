-- ===== src/Sidecar/Examples.antt =====
-- The sidecar of a concrete episode: a granted claim drives a part of it and is released.
use waddle_sdk.Prelude.{◌≡◌, refl, false, some, List, [], ◌∷◌}
use waddle_sdk.Prelude.Int.{pos}
use waddle_sdk.Types.Time.{Stamp}
use waddle_sdk.Types.Actor.{ActorKind, ActorRef, policy_tag}
use waddle_sdk.Types.{GateMode}
use waddle_sdk.Session.Emission.{ClaimEventKind, Body, EpisodeEvent}
use waddle_sdk.Sidecar.{new, open_bounds, close_bounds, span}
use waddle_sdk.Sidecar.Spans.{push_event, driver_tag}
use waddle_sdk.Sidecar.Finish.{Sidecar, finish}
use waddle_sdk.Sidecar.Tiling.{push_all, AccountsFor, finish-push_all}

abbrev at : Stamp
at = record { mono = pos 10; epoch = pos 1010 }

abbrev until : Stamp
until = record { mono = pos 50; epoch = pos 1050 }

abbrev driver : ActorRef
driver = record { kind = ActorKind.agent; id = "a"; display_name = "A" }

abbrev episode : List EpisodeEvent
episode =
    record {
      t_ns = pos 20;
      episode_id = "e";
      event = Body.claim ClaimEventKind.granted "c" "e" driver "plane" false "";
    }
    ∷ record {
      t_ns = pos 21;
      episode_id = "e";
      event = Body.gate GateMode.passthrough GateMode.intervention "";
    }
    ∷ record {
      t_ns = pos 40;
      episode_id = "e";
      event = Body.gate GateMode.intervention GateMode.passthrough "";
    }
    ∷ record {
      t_ns = pos 41;
      episode_id = "e";
      event = Body.claim ClaimEventKind.released "c" "e" driver "plane" false "";
    }
    ∷ []

finish-push_all_example :
    (s : Sidecar) × (finish (close_bounds (push_all (open_bounds (new "e") at) episode) until)
      ≡ some s)
    × AccountsFor at until episode s
finish-push_all_example = finish-push_all "e" at until episode

provenance_spans :
    (close_bounds (push_all (open_bounds (new "e") at) episode) until).provenance
    ≡ (policy_tag, span (pos 10) (pos 21))
      ∷ (
        driver_tag (
            (
              pos 20,
              record {
                claim_id = "c";
                episode_id = "e";
                actor = driver;
                source_name = "plane";
                self_initiated = false;
              },
            )
            ∷ []),
        span (pos 21) (pos 40),
      )
      ∷ (policy_tag, span (pos 40) (pos 50))
      ∷ []
unfolding new open_bounds close_bounds push_event driver_tag
provenance_spans = refl
