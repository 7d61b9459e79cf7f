-- ===== src/Tripwire.antt =====
-- Local watchdogs, waddle-core/crates/waddle-tripwire/src/lib.rs: the evaluator, and one round of each
-- thread's loop. `F` stands for `f64`; how Rust prints floats is an argument.
pub mod Edges
pub mod Outages
mod Examples
use waddle_sdk.Prelude.{
  ℕ, ◌+◌, Bool, true, false, ◌&&◌, ◌||◌, not, Option, none, some, List, [], ◌∷◌, ◌++◌, String, ◌==◌,
  ◌<>◌, decimal, decimal_ℤ, map, if◌then◌else◌,
}
use waddle_sdk.Prelude.Int.{ℤ, pos, ltb_ℤ}
use waddle_sdk.Prelude.Float.{F64Ops}
use waddle_sdk.Outcome.{Outcome, done, panicked, ◌>>=◌}
use waddle_sdk.Types.Time.{MonoNs}
use waddle_sdk.Types.Wrapping.{sub_i64}
use waddle_sdk.Types.{Verb}

pub record Point (F : Type 0) : Type 0 where
  pub x : F
  pub y : F
  pub z : F

pub record ObsSnapshot (F : Type 0) : Type 0 where
  pub at : MonoNs
  pub joint_pos : List F
  pub ee_pos : Option (Point F)
  pub force_n : Option F

pub record TripwireFire : Type 0 where
  pub name : String
  pub requested_verb : Verb
  pub detail : String
  pub at : MonoNs

pub record Aabb (F : Type 0) : Type 0 where
  pub min : Point F
  pub max : Point F

pub data TripwireKind (F : Type 0) : Type 0 where
  workspace_aabb : Aabb F → TripwireKind F
  joint_limit_margin : (margin_rad : F) (limits : List (F × F)) → TripwireKind F
  force_threshold : (max_n : F) → TripwireKind F
  staleness : (max_age_ns : ℤ) → TripwireKind F

pub record Tripwire (F : Type 0) : Type 0 where
  pub name : String
  pub kind : TripwireKind F
  pub requested_verb : Verb

-- `{p:?}` of a point, and `{x:.n}`.
pub record Formats (F : Type 0) : Type 0 where
  pub point : Point F → String
  pub fixed : ℕ → F → String

abbrev pub fire_of : {F : Type 0} → Tripwire F → MonoNs → Option String → Option TripwireFire
fire_of wire now none = none
fire_of wire now (some why) =
    some (record { name = wire.name; requested_verb = wire.requested_verb; detail = why; at = now })

abbrev pub push : Option TripwireFire → List TripwireFire → List TripwireFire
push none fires = fires
push (some f) fires = f ∷ fires

module _ {F : Type 0} (f64 : F64Ops F) (fmt : Formats F) where
  abbrev within : F → F → F → Bool
  within lo hi p = f64.le lo p && f64.le p hi

  unfoldable pub contains : Aabb F → Point F → Bool
  contains box p =
      within box.min.x box.max.x p.x
      && within box.min.y box.max.y p.y
      && within box.min.z box.max.z p.z

  -- The first joint within the margin of a limit, with its index.
  unfoldable pub find_joint : ℕ → F → List F → List (F × F) → Option (ℕ × F)
  find_joint i margin [] limits = none
  find_joint i margin (q ∷ qs) [] = none
  find_joint i margin (q ∷ qs) ((lo, hi) ∷ limits) =
      let rest = find_joint (i + 1) margin qs limits in
      if f64.lt q (f64.add lo margin) || f64.lt (f64.sub hi margin) q then some (i, q) else rest

  unfoldable pub workspace_detail : Aabb F → Option (Point F) → Option String
  unfolding contains
  workspace_detail box none = none
  workspace_detail box (some p) =
      if not (contains box p)
      then some ("ee at " <> (fmt.point p <> " outside workspace box"))
      else none

  abbrev pub joint_detail : Option (ℕ × F) → Option String
  joint_detail none = none
  joint_detail (some (i, q)) =
      some ("joint " <> (decimal i <> (" at " <> (fmt.fixed 4 q <> " rad within limit margin"))))

  unfoldable pub force_detail : F → Option F → Option String
  force_detail max_n none = none
  force_detail max_n (some f) =
      if f64.lt max_n f
      then some ("force " <> (fmt.fixed 1 f <> (" N over " <> (fmt.fixed 1 max_n <> " N"))))
      else none

  -- Why a wire fires on a snapshot, if it does.
  unfoldable pub detail_of : TripwireKind F → ObsSnapshot F → MonoNs → Option String
  unfolding workspace_detail find_joint force_detail decimal_ℤ sub_i64
  detail_of (TripwireKind.workspace_aabb box) snap now = workspace_detail box snap.ee_pos
  detail_of (TripwireKind.joint_limit_margin margin limits) snap now =
      joint_detail (find_joint 0 margin snap.joint_pos limits)
  detail_of (TripwireKind.force_threshold max_n) snap now = force_detail max_n snap.force_n
  detail_of (TripwireKind.staleness max_age_ns) snap now =
      let age = sub_i64 now snap.at in
      if ltb_ℤ max_age_ns age
      then some ("observation stale by " <> (decimal_ℤ age <> " ns"))
      else none

  unfoldable pub evaluate : List (Tripwire F) → ObsSnapshot F → MonoNs → List TripwireFire
  unfolding detail_of
  evaluate [] snap now = []
  evaluate (wire ∷ wires) snap now =
      push (fire_of wire now (detail_of wire.kind snap now)) (evaluate wires snap now)

-- `fires.iter().find(|f| f.name == wire.name)`.
unfoldable pub find : String → List TripwireFire → Option TripwireFire
find name [] = none
find name (f ∷ fires) = let rest = find name fires in if f.name == name then some f else rest

-- One wire's latch: its next value, and the request to send.
abbrev pub latch : Option TripwireFire → Bool → Bool × List TripwireFire
latch (some f) false = (true, f ∷ [])
latch (some f) true = (true, [])
latch none firing = (false, [])

-- `vec![false; evaluator.wires.len()]`.
abbrev pub armed : {F : Type 0} → List (Tripwire F) → List Bool
armed wires = map (λ _. false) wires

-- The loop over the wires: the latches, and the requests in order.
unfoldable pub sweep :
    {F : Type 0}
    → List TripwireFire
    → List (Tripwire F)
    → List Bool
    → Outcome (List Bool × List TripwireFire)
unfolding find
sweep fires [] firing = done (firing, [])
sweep fires (wire ∷ wires) [] = panicked "index out of bounds"
sweep fires (wire ∷ wires) (b ∷ firing) =
    let mine = latch (find wire.name fires) b in
    do rest ← sweep fires wires firing; done (mine.0 ∷ rest.0, mine.1 ++ rest.1)

-- One round of the evaluator's thread: what `source.latest()` gave, and the clock.
unfoldable pub poll :
    {F : Type 0}
    → F64Ops F
    → Formats F
    → List (Tripwire F)
    → List Bool
    → Option (ObsSnapshot F)
    → MonoNs
    → Outcome (List Bool × List TripwireFire)
unfolding evaluate sweep
poll f64 fmt wires firing none now = done (firing, [])
poll f64 fmt wires firing (some snap) now = sweep (evaluate f64 fmt wires snap now) wires firing

-- The heartbeat watchdog: the last ack is older than the timeout.
unfoldable pub is_outage : ℤ → ℤ → MonoNs → Bool
unfolding sub_i64
is_outage timeout_ns last now =
    (ltb_ℤ last (pos 0) || ltb_ℤ (pos 0) last) && ltb_ℤ timeout_ns (sub_i64 now last)

-- One round of its thread.
unfoldable pub watch : ℤ → Bool → ℤ → MonoNs → Bool × Option TripwireFire
unfolding is_outage decimal_ℤ sub_i64
watch timeout_ns fired last now =
    let stale = is_outage timeout_ns last now in
    if stale && not fired
    then (
      true,
      some (record {
        name = "control-plane-heartbeat";
        requested_verb = Verb.hold;
        detail = "no heartbeat for " <> (decimal_ℤ (sub_i64 now last) <> " ns");
        at = now;
      }),
    )
    else if not stale
    then (false, none)
    else (fired, none)
