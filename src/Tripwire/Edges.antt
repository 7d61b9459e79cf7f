-- ===== src/Tripwire/Edges.antt =====
-- Requests on edges, for the threads of waddle-core/crates/waddle-tripwire/src/lib.rs.
use waddle_sdk.Prelude.{
  ◌≡◌, ◌≢◌, refl, Bool, true, false, Option, none, some, List, [], ◌∷◌, ◌++◌, map, String, ◌==◌,
  ◌∙◌, eq_iff, is_some, Bool-cases, inl, inr, sym,
}
use waddle_sdk.Prelude.Float.{F64Ops}
use waddle_sdk.Outcome.{Outcome, done, ◌>>=◌}
use waddle_sdk.Types.Time.{MonoNs}
use waddle_sdk.Tripwire.{
  ObsSnapshot, TripwireFire, Tripwire, Formats, detail_of, fire_of, push, evaluate, find, latch,
  armed, sweep, poll,
}

-- The instants at which the thread looks, with what it sees.
abbrev pub Look : Type 0 → Type 0
Look F = Option (ObsSnapshot F) × MonoNs

abbrev pub rise : Bool → Option TripwireFire → List TripwireFire
rise false (some f) = f ∷ []
rise _ _ = []

-- The wires whose condition holds now and did not hold when `before` was taken, in order.
abbrev pub risen :
    {F : Type 0}
    → (Tripwire F → Option TripwireFire)
    → (Tripwire F → Bool)
    → List (Tripwire F)
    → List TripwireFire
risen now before [] = []
risen now before (wire ∷ wires) = rise (before wire) (now wire) ++ risen now before wires

module _ {F : Type 0} (f64 : F64Ops F) (fmt : Formats F) where
  -- The wire's own condition.
  abbrev pub trip : ObsSnapshot F → MonoNs → Tripwire F → Option TripwireFire
  trip snap now wire = fire_of wire now (detail_of f64 fmt wire.kind snap now)

  -- What the thread is to request, round by round; a round without a snapshot changes nothing.
  unfoldable pub requests :
      List (Tripwire F) → (Tripwire F → Bool) → List (Look F) → List TripwireFire
  requests wires before [] = []
  requests wires before ((none, now) ∷ looks) = requests wires before looks
  requests wires before ((some snap, now) ∷ looks) =
      risen (trip snap now) before wires ++ requests wires (λ w. is_some (trip snap now w)) looks

  -- The thread's loop over its rounds.
  unfoldable pub run : List (Tripwire F) → List Bool → List (Look F) → Outcome (List TripwireFire)
  unfolding poll
  run wires firing [] = done []
  run wires firing ((seen, now) ∷ looks) = do
    r ← poll f64 fmt wires firing seen now
    rest ← run wires r.0 looks
    done (r.1 ++ rest)

-- No wire of the list has the name.
abbrev pub IsNew : {F : Type 0} → String → List (Tripwire F) → Type 0
IsNew name [] = Unit
IsNew name (wire ∷ wires) = (name ≢ wire.name) × IsNew name wires

abbrev pub OwnNames : {F : Type 0} → List (Tripwire F) → Type 0
OwnNames [] = Unit
OwnNames (wire ∷ wires) = IsNew wire.name wires × OwnNames wires

unequal : (a b : String) → a ≢ b → a == b ≡ false
unequal a b h = elim (Bool-cases (a == b)) [ inl e ↦ absurd (h ((eq_iff a b).0 e)) | inr e ↦ e ]

equal : (a : String) → a == a ≡ true
equal a = (eq_iff a a).1 refl

module _ {F : Type 0} (f64 : F64Ops F) (fmt : Formats F) (snap : ObsSnapshot F) (now : MonoNs) where
  abbrev Agree : List TripwireFire → List (Tripwire F) → Type 0
  Agree fires [] = Unit
  Agree fires (wire ∷ wires) =
      (find wire.name fires ≡ trip f64 fmt snap now wire) × Agree fires wires

  -- The wire's own fire stands first for its name.
  find-own :
      (wire : Tripwire F) (why : Option String) (fires : List TripwireFire)
      → find wire.name fires ≡ none
      → find wire.name (push (fire_of wire now why) fires) ≡ fire_of wire now why
  unfolding find
  find-own wire none fires h = h
  find-own wire (some why) fires h = rw (equal wire.name) refl

  find-other :
      (name : String) (wire : Tripwire F) (why : Option String) (fires : List TripwireFire)
      → name ≢ wire.name
      → find name (push (fire_of wire now why) fires) ≡ find name fires
  unfolding find
  find-other name wire none fires h = refl
  find-other name wire (some why) fires h = rw (unequal wire.name name λ e. h (sym e)) refl

  find-new :
      (name : String) (wires : List (Tripwire F))
      → IsNew name wires
      → find name (evaluate f64 fmt wires snap now) ≡ none
  unfolding find evaluate
  find-new name [] h = refl
  find-new name (wire ∷ wires) h =
      find-other name wire (detail_of f64 fmt wire.kind snap now) (evaluate f64 fmt wires snap now)
        h.0
      ∙ find-new name wires h.1

  Agree-push :
      (wire : Tripwire F) (why : Option String) (fires : List TripwireFire)
      (wires : List (Tripwire F))
      → IsNew wire.name wires
      → Agree fires wires
      → Agree (push (fire_of wire now why) fires) wires
  Agree-push wire why fires [] h a = tt
  Agree-push wire why fires (other ∷ wires) h a = (
    find-other other.name wire why fires (λ e. h.0 (sym e)) ∙ a.0,
    Agree-push wire why fires wires h.1 a.1,
  )

  evaluate-Agree :
      (wires : List (Tripwire F)) → OwnNames wires → Agree (evaluate f64 fmt wires snap now) wires
  unfolding evaluate
  evaluate-Agree [] h = tt
  evaluate-Agree (wire ∷ wires) h = (
    find-own wire (detail_of f64 fmt wire.kind snap now) _ (find-new wire.name wires h.0),
    Agree-push wire (detail_of f64 fmt wire.kind snap now) _ wires h.0 (evaluate-Agree wires h.1),
  )

  latched : (b : Bool) (o : Option TripwireFire) → latch o b ≡ (is_some o, rise b o)
  latched false none = refl
  latched true none = refl
  latched false (some f) = refl
  latched true (some f) = refl

  sweep-Agree :
      (before : Tripwire F → Bool) (fires : List TripwireFire) (wires : List (Tripwire F))
      → Agree fires wires
      → sweep fires wires (map before wires)
        ≡ done (
          map (λ w. is_some (trip f64 fmt snap now w)) wires,
          risen (trip f64 fmt snap now) before wires,
        )
  unfolding sweep
  sweep-Agree before fires [] a = refl
  sweep-Agree before fires (wire ∷ wires) a =
      rw
        (
          sweep-Agree before fires wires a.1,
          a.0,
          latched (before wire) (trip f64 fmt snap now wire),
        )
        refl

module _ {F : Type 0} (f64 : F64Ops F) (fmt : Formats F) (wires : List (Tripwire F)) where
  edges_sent :
      (before : Tripwire F → Bool) (looks : List (Look F))
      → OwnNames wires
      → run f64 fmt wires (map before wires) looks ≡ done (requests f64 fmt wires before looks)
  unfolding run requests poll
  edges_sent before [] h = refl
  edges_sent before ((none, now) ∷ looks) h = rw (edges_sent before looks h) refl
  edges_sent before ((some snap, now) ∷ looks) h =
      rw
        (
          sweep-Agree f64 fmt snap now before _ wires (evaluate-Agree f64 fmt snap now wires h),
          edges_sent (λ w. is_some (trip f64 fmt snap now w)) looks h,
        )
        refl

  -- The evaluator's thread requests on edges: with wires of different names it never panics, and
  -- through all its rounds it sends, in order, exactly the fires of the wires whose condition holds at
  -- a snapshot and did not hold at the snapshot before (or there was none before). A condition that
  -- persists is requested once, and rounds without a snapshot change nothing.
  pub run-requests :
      (looks : List (Look F))
      → OwnNames wires
      → run f64 fmt wires (armed wires) looks ≡ done (requests f64 fmt wires (λ _. false) looks)
  run-requests looks h = edges_sent (λ _. false) looks h
