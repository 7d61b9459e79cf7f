-- ===== src/Ingest/Examples.antt =====
-- The estimator and the hub of waddle-core/crates/waddle-ingest/src on concrete samples.
use waddle_sdk.Prelude.{◌≡◌, refl, some, List, [], ◌∷◌, String, arith}
use waddle_sdk.Prelude.Int.{ℤ, pos, ◌≤ℤ◌, ◌-ℤ◌, ◌+ℤ◌}
use waddle_sdk.Prelude.Recent.{recent}
use waddle_sdk.Types.Time.{MonoNs, Stamp}
use waddle_sdk.Ingest.Offset.{new, observe, offset_ns, map_ts}
use waddle_sdk.Ingest.Offset.Window.{
  Observation, deltas, observe_all, IsLeast, at_least_one, offset_ns-IsLeast, map_ts-observe,
}
use waddle_sdk.Ingest.Hub.{SourceEntry, entry, register, push_now, push_with_source_ts}
use waddle_sdk.Ingest.Hub.Latest.{PushedNow, PushedMapped, push-Pushed}

abbrev seen : List Observation
seen = (pos 100, pos 140) ∷ (pos 110, pos 170) ∷ (pos 120, pos 165) ∷ []

offset_ns-IsLeast_example :
    IsLeast (recent (at_least_one 2) (deltas seen)) (offset_ns (observe_all (new 2) seen))
offset_ns-IsLeast_example = offset_ns-IsLeast 2 seen

map_ts-observe_example :
    (at : MonoNs) × (map_ts
        (observe (observe (new 4) (pos 100) (pos 140)) (pos 110) (pos 170))
        (pos 110)
      ≡ some at)
    × (at ≤ℤ pos 170)
unfolding offset_ns observe new ◌-ℤ◌ ◌+ℤ◌
map_ts-observe_example =
    map_ts-observe (observe (new 4) (pos 100) (pos 140)) (pos 110) (pos 40) (pos 170) refl
      (omega arith) (omega arith) (omega arith) (omega arith)

abbrev cameras : List (String × SourceEntry ℤ)
cameras = register "wrist" (register "head" [])

abbrev arrival : Stamp
arrival = record { mono = pos 170; epoch = pos 1170 }

push-Pushed_example :
    PushedNow "head" arrival
      (pos 4 ∷ [])
      cameras
      (entry "head" cameras)
      (push_now "head" arrival (pos 4 ∷ []) cameras)
    × PushedMapped "head"
        (pos 110)
        arrival
        (pos 4 ∷ [])
        cameras
        (entry "head" cameras)
        (push_with_source_ts "head" (pos 110) arrival (pos 4 ∷ []) cameras)
push-Pushed_example = push-Pushed "head" (pos 110) arrival (pos 4 ∷ []) cameras
