-- ===== src/Ingest/Hub.antt =====
-- The ingest hub, waddle-core/crates/waddle-ingest/src/hub.rs, with the latest-value slot of ring.rs.
-- The clock is read outside: an arrival's stamp is an argument. The map of sources is a list of
-- entries; `F` stands for `f64`.
pub mod Latest
use waddle_sdk.Prelude.{
  ℕ, Bool, true, false, Option, none, some, List, [], ◌∷◌, String, ◌==◌, if◌then◌else◌, is_some,
}
use waddle_sdk.Prelude.Int.{ℤ}
use waddle_sdk.Types.Time.{MonoNs, Stamp}
use waddle_sdk.Types.Wrapping.{sub_i64}
use waddle_sdk.Ingest.Offset.{SourceOffsetEstimator, default, observe, map_ts}

pub record ObsFrame (F : Type 0) : Type 0 where
  pub source : String
  pub stamp : Stamp
  pub values : List F

pub record SourceEntry (F : Type 0) : Type 0 where
  pub offset : SourceOffsetEstimator
  pub latest : Option (ObsFrame F)

-- The stamp of a sample whose instant on the session's clock was estimated.
unfoldable pub mapped_stamp : Stamp → Option MonoNs → Stamp
unfolding sub_i64
mapped_stamp arrival none = arrival
mapped_stamp arrival (some mono) = record {
  mono = mono;
  epoch = sub_i64 arrival.epoch (sub_i64 arrival.mono mono);
}

module _ {F : Type 0} where
  unfoldable pub entry : String → List (String × SourceEntry F) → Option (SourceEntry F)
  entry source [] = none
  entry source ((name, e) ∷ sources) =
      let rest = entry source sources in if name == source then some e else rest

  -- `entry(source).or_insert_with(..)`.
  unfoldable pub register : String → List (String × SourceEntry F) → List (String × SourceEntry F)
  unfolding entry
  register source sources =
      if is_some (entry source sources)
      then sources
      else (source, record { offset = default; latest = none }) ∷ sources

  -- A change of a source's shared entry.
  unfoldable pub set_entry :
      String → SourceEntry F → List (String × SourceEntry F) → List (String × SourceEntry F)
  set_entry source new [] = []
  set_entry source new ((name, e) ∷ sources) =
      let rest = set_entry source new sources in
      if name == source then (name, new) ∷ sources else (name, e) ∷ rest

  abbrev pub frame : String → Stamp → List F → ObsFrame F
  frame source stamp values = record { source = source; stamp = stamp; values = values }

  abbrev pub publish_now :
      String
      → Stamp
      → List F
      → List (String × SourceEntry F)
      → Option (SourceEntry F)
      → List (String × SourceEntry F) × Option Stamp
  publish_now source arrival values sources none = (sources, none)
  publish_now source arrival values sources (some e) = (
    set_entry source (record e { latest = some (frame source arrival values) }) sources,
    some arrival,
  )

  unfoldable pub push_now :
      String
      → Stamp
      → List F
      → List (String × SourceEntry F)
      → List (String × SourceEntry F) × Option Stamp
  unfolding entry set_entry
  push_now source arrival values sources =
      publish_now source arrival values sources (entry source sources)

  abbrev pub publish_mapped :
      String
      → ℤ
      → Stamp
      → List F
      → List (String × SourceEntry F)
      → Option (SourceEntry F)
      → List (String × SourceEntry F) × Option Stamp
  publish_mapped source source_ts_ns arrival values sources none = (sources, none)
  publish_mapped source source_ts_ns arrival values sources (some e) =
      let offset = observe e.offset source_ts_ns arrival.mono in
      let stamp = mapped_stamp arrival (map_ts offset source_ts_ns) in
      (
        set_entry source (record { offset = offset; latest = some (frame source stamp values) })
            sources,
        some stamp,
      )

  unfoldable pub push_with_source_ts :
      String
      → ℤ
      → Stamp
      → List F
      → List (String × SourceEntry F)
      → List (String × SourceEntry F) × Option Stamp
  unfolding entry set_entry observe map_ts mapped_stamp
  push_with_source_ts source source_ts_ns arrival values sources =
      publish_mapped source source_ts_ns arrival values sources (entry source sources)

  abbrev pub latest_of : Option (SourceEntry F) → Option (ObsFrame F)
  latest_of none = none
  latest_of (some e) = e.latest

  unfoldable pub latest : String → List (String × SourceEntry F) → Option (ObsFrame F)
  unfolding entry
  latest source sources = latest_of (entry source sources)
