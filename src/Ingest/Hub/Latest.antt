-- ===== src/Ingest/Hub/Latest.antt =====
-- What the hub of waddle-core/crates/waddle-ingest/src/hub.rs shows after a push.
use waddle_sdk.Prelude.{
  ◌≡◌, ◌≢◌, refl, sym, Option, none, some, List, [], ◌∷◌, String, ◌==◌, eq_iff, Bool-cases, inl,
  inr, ◌∙◌, arith, ap, subst, Option-cases,
}
use waddle_sdk.Prelude.Int.{ℤ}
use waddle_sdk.Types.Time.{MonoNs, Stamp}
use waddle_sdk.Types.Wrapping.{sub_i64}
use waddle_sdk.Ingest.Offset.{SourceOffsetEstimator, observe, map_ts}
use waddle_sdk.Ingest.Hub.{
  ObsFrame, SourceEntry, entry, register, set_entry, frame, push_now, mapped_stamp,
  push_with_source_ts, latest_of, latest,
}

-- A stamp for an arrival, from the instant on the session's clock that was estimated for it, if one was.
abbrev pub StampedBy : Stamp → Option MonoNs → Stamp → Type 0
StampedBy arrival none stamp = stamp ≡ arrival
StampedBy arrival (some mono) stamp =
    (stamp.mono ≡ mono) × (stamp.epoch ≡ sub_i64 arrival.epoch (sub_i64 arrival.mono mono))

mapped_stamp-StampedBy :
    (arrival : Stamp) (mono : Option MonoNs) → StampedBy arrival mono (mapped_stamp arrival mono)
unfolding mapped_stamp
mapped_stamp-StampedBy arrival none = refl
mapped_stamp-StampedBy arrival (some mono) = (refl, refl)

module _ {F : Type 0} where
  entry-set_entry :
      (source : String) (new old : SourceEntry F) (sources : List (String × SourceEntry F))
      → entry source sources ≡ some old
      → entry source (set_entry source new sources) ≡ some new
  unfolding entry set_entry
  entry-set_entry source new old [] h = ground (arith, h)
  entry-set_entry source new old ((name, e) ∷ sources) h = elim (Bool-cases (name == source)) [
    | inl q ↦ rw (q, q) refl
    | inr q ↦ rw (q, q) (entry-set_entry source new old sources (rw q at h))
  ]

  -- Another source's entry.
  entry-set_other :
      (source other : String) (new : SourceEntry F) (sources : List (String × SourceEntry F))
      → source ≢ other
      → entry other (set_entry source new sources) ≡ entry other sources
  unfolding entry set_entry
  entry-set_other source other new [] h = refl
  entry-set_other source other new ((name, e) ∷ sources) h = elim (Bool-cases (name == source)) [
    | inl q ↦ elim (Bool-cases (name == other)) [
      | inl w ↦ absurd (h (sym ((eq_iff name source).0 q) ∙ (eq_iff name other).0 w))
      | inr w ↦ rw (q, w) refl
    ]
    | inr q ↦ elim (Bool-cases (name == other)) [
      | inl w ↦ rw (q, w) refl
      | inr w ↦ rw (q, w) (entry-set_other source other new sources h)
    ]
  ]

  -- The frame is what its source shows from now on, and no other source shows anything else.
  abbrev pub Published :
      String
      → List F
      → List (String × SourceEntry F)
      → Stamp
      → List (String × SourceEntry F) × Option Stamp
      → Type 0
  Published source values sources stamp r =
      (r.1 ≡ some stamp)
      × (latest source r.0 ≡ some (frame source stamp values))
      × ((other : String) → source ≢ other → latest other r.0 ≡ latest other sources)

  abbrev with_frame : SourceOffsetEstimator → ObsFrame F → SourceEntry F
  with_frame offset seen = record { offset = offset; latest = some seen }

  -- The estimator that a source has from now on.
  abbrev pub Estimates : String → SourceOffsetEstimator → List (String × SourceEntry F) → Type 0
  Estimates source offset sources =
      (e : SourceEntry F) × (entry source sources ≡ some e) × (e.offset ≡ offset)

  -- A push that is stamped on arrival.
  abbrev pub PushedNow :
      String
      → Stamp
      → List F
      → List (String × SourceEntry F)
      → Option (SourceEntry F)
      → List (String × SourceEntry F) × Option Stamp
      → Type 0
  PushedNow source arrival values sources none r = r ≡ (sources, none)
  PushedNow source arrival values sources (some e) r =
      Published source values sources arrival r × Estimates source e.offset r.0

  -- A push with a timestamp of the source's own.
  abbrev pub PushedMapped :
      String
      → ℤ
      → Stamp
      → List F
      → List (String × SourceEntry F)
      → Option (SourceEntry F)
      → List (String × SourceEntry F) × Option Stamp
      → Type 0
  PushedMapped source ts arrival values sources none r = r ≡ (sources, none)
  PushedMapped source ts arrival values sources (some e) r =
      (stamp : Stamp) × StampedBy arrival (map_ts (observe e.offset ts arrival.mono) ts) stamp
      × Published source values sources stamp r
      × Estimates source (observe e.offset ts arrival.mono) r.0

  shown :
      (source : String) (stamp : Stamp) (values : List F) (sources : List (String × SourceEntry F))
      (new old : SourceEntry F)
      → entry source sources ≡ some old
      → new.latest ≡ some (frame source stamp values)
      → Published source values sources stamp (set_entry source new sources, some stamp)
  unfolding latest
  shown source stamp values sources new old h e = (
    refl,
    ap latest_of (entry-set_entry source new old sources h) ∙ e,
    λ other d. ap latest_of (entry-set_other source other new sources d),
  )

  -- A push to a source that is not registered changes nothing and gives no stamp. A push to a
  -- registered one returns the stamp of the frame that the source then shows, and changes what no other
  -- source shows. Stamped on arrival, the stamp is the arrival's, and the source's estimator stays.
  -- With a timestamp of the source's own, the estimator has observed it and the arrival, and the stamp is
  -- the arrival's where the estimator still gives no instant; otherwise it has the instant that the
  -- estimator gives for the timestamp, on both clocks: as far from the arrival on one as on the other.
  pub push-Pushed :
      (source : String) (source_ts_ns : ℤ) (arrival : Stamp) (values : List F)
      (sources : List (String × SourceEntry F))
      → PushedNow source arrival values sources
          (entry source sources)
          (push_now source arrival values sources)
        × PushedMapped source source_ts_ns arrival values sources
            (entry source sources)
            (push_with_source_ts source source_ts_ns arrival values sources)
  unfolding push_now push_with_source_ts
  push-Pushed source ts arrival values sources = elim (Option-cases (entry source sources)) [
    | inl h ↦ rw h (refl, refl)
    | inr (e, h) ↦
        let offset = observe e.offset ts arrival.mono in
        let stamp = mapped_stamp arrival (map_ts offset ts) in
        let now = with_frame e.offset (frame source arrival values) in
        let later = with_frame offset (frame source stamp values) in
        rw h (
          (
            shown source arrival values sources now e h refl,
            (now, entry-set_entry source now e sources h, refl),
          ),
          (
            stamp,
            mapped_stamp-StampedBy arrival (map_ts offset ts),
            shown source stamp values sources later e h refl,
            (later, entry-set_entry source later e sources h, refl),
          ),
        )
  ]

  -- Registering a source, again or for the first time, changes what no source shows.
  pub latest-register :
      (source other : String) (sources : List (String × SourceEntry F))
      → latest other (register source sources) ≡ latest other sources
  unfolding latest register entry
  latest-register source other sources = elim (Option-cases (entry source sources)) [
    | inr (e, h) ↦ rw h refl
    | inl h ↦ elim (Bool-cases (source == other)) [
      | inr w ↦ rw (h, w) refl
      | inl w ↦
          rw (h, w)
            (ap latest_of (sym (subst (λ s. entry s sources ≡ none) ((eq_iff source other).0 w) h)))
    ]
  ]
