-- ===== src/Gate/Tick.antt =====
-- `StreamIntake` and `Gate::gate_scoped` of gate.rs, and record.rs, in
-- waddle-core/crates/waddle-gate/src. The rings are those of rtrb: an intake ring is the list of what
-- its producer has pushed and nobody has popped, and whether the record ring has room at a tick is
-- an argument of the tick, as is the plan that the tick loads.
pub mod Agreement
use waddle_sdk.Prelude.{
  ℕ, ◌+◌, Bool, true, false, Option, none, some, List, [], ◌∷◌, String, if◌then◌else◌,
}
use waddle_sdk.Prelude.Int.{ℤ}
use waddle_sdk.Prelude.Float.{F64Ops, F32Ops}
use waddle_sdk.Outcome.{Outcome, done, expect, ◌>>=◌}
use waddle_sdk.Types.Time.{MonoNs, Stamp}
use waddle_sdk.Types.Actor.{ProvenanceTag, policy_tag}
use waddle_sdk.Gate.Action.{OwnedAction, TimedAction}
use waddle_sdk.Gate.Jitter.{JitterBuffer, u64, ingest, pop_due, clear_pending}
use waddle_sdk.Gate.Plan.{BlendSchedule, PlanMode, progress}
use waddle_sdk.Gate.Blend.{blend_step}
use waddle_sdk.Gate.Stats.{TickStats, record_tick}

pub data GateDecision : Type 0 where
  pass substitute blend noop hold reset_active agent_episode : GateDecision

module _ (F : Type 0) where
  pub record GateRecord : Type 0 where
    pub stamp : Stamp
    pub seq : ℕ
    pub decision : GateDecision
    pub provenance : ProvenanceTag
    pub action : Option (OwnedAction F)
    pub obs : Option (List F)

  pub record StreamIntake : Type 0 where
    pub rx : List (TimedAction F)
    pub jitter : JitterBuffer F

  -- The gate with what it shares: the stream and the tick statistics.
  pub record Gate : Type 0 where
    pub stream : StreamIntake
    pub stats : TickStats
    pub seq : ℕ
    pub last_action : Option (OwnedAction F)
    pub records_dropped : ℕ

  -- The arguments of a tick, and what it reads.
  pub record Call : Type 0 where
    pub stamp : Stamp
    pub mode : PlanMode
    pub has_room : Bool
    pub values : List F
    pub gripper : Option F
    pub obs : Option (List F)
    pub part : Option String

pub data GateOutput (F G : Type 0) : Type 0 where
  pass : (provenance : ProvenanceTag) → GateOutput F G
  substitute : (action : OwnedAction F) (provenance : ProvenanceTag) → GateOutput F G
  blend : (action : OwnedAction F) (progress : G) (provenance : ProvenanceTag) → GateOutput F G
  noop : (provenance : ProvenanceTag) → GateOutput F G
  hold : GateOutput F G

pub record Ticked (F G : Type 0) : Type 0 where
  pub gate : Gate F
  pub output : GateOutput F G
  pub written : GateRecord F

module _ {F : Type 0} where
  unfoldable pub drain : List (TimedAction F) → JitterBuffer F → JitterBuffer F
  unfolding ingest
  drain [] b = b
  drain (a ∷ rx) b = drain rx (ingest b a)

  -- `StreamIntake::pop_due`.
  unfoldable pub stream_pop_due :
      StreamIntake F → MonoNs → Outcome (StreamIntake F × Option (OwnedAction F))
  unfolding drain pop_due
  stream_pop_due s now = do
    r ← pop_due (drain s.rx s.jitter) now
    done (record { rx = []; jitter = r.0 }, r.1)

  -- `StreamIntake::clear`.
  unfoldable pub stream_clear : StreamIntake F → StreamIntake F
  unfolding clear_pending
  stream_clear s = record { rx = []; jitter = clear_pending s.jitter }

  abbrev pub owned : Call F → OwnedAction F
  owned c = record {
    values = c.values;
    velocity_feedforward = none;
    gripper = c.gripper;
    part = c.part;
  }

  -- An action that leaves the gate becomes the blend anchor.
  abbrev pub anchored : Gate F → OwnedAction F → Gate F
  anchored g action = record g { last_action = some action }

  -- What a tick does before it looks at the plan.
  abbrev pub started : Gate F → Call F → Gate F
  started g c = record g { stats = record_tick g.stats c.stamp.mono; seq = u64 (g.seq + 1) }

module _ {F G : Type 0} where
  -- `Gate::record`: the record, and the count of those that found the ring full.
  abbrev pub write :
      Gate F
      → Call F
      → GateDecision
      → ProvenanceTag
      → Option (OwnedAction F)
      → GateOutput F G
      → Ticked F G
  write g c decision provenance action output = record {
    gate = record g {
      records_dropped = if c.has_room then g.records_dropped else u64 (g.records_dropped + 1);
    };
    output = output;
    written = record {
      stamp = c.stamp;
      seq = g.seq;
      decision = decision;
      provenance = provenance;
      action = action;
      obs = c.obs;
    };
  }

  unfoldable pub blend_progress : F64Ops F → F32Ops G F → Option BlendSchedule → MonoNs → G
  unfolding progress
  blend_progress f64 f32 none now = f32.one
  blend_progress f64 f32 (some b) now = progress f64 f32 b now

  abbrev pub blended_to : Gate F → Call F → ProvenanceTag → G → Option (OwnedAction F) → Ticked F G
  blended_to g c provenance t (some blended) =
      write (anchored g blended) c GateDecision.blend provenance (some blended)
        (GateOutput.blend blended t provenance)
  blended_to g c provenance t none = write g c GateDecision.hold provenance none GateOutput.hold

  -- The due action, inside or after the blend window.
  unfoldable pub dispatch :
      F64Ops F
      → F32Ops G F
      → Gate F
      → Call F
      → ProvenanceTag
      → Option BlendSchedule
      → OwnedAction F
      → Outcome (Ticked F G)
  unfolding blend_progress blend_step
  dispatch f64 f32 g c provenance fade target =
      let t = blend_progress f64 f32 fade c.stamp.mono in
      if f32.lt t f32.one
      then (do
        schedule ← expect fade "progress < 1 implies schedule"
        done (
            blended_to g c provenance t
              (blend_step f64 f32 g.last_action target t schedule.interp)))
      else done (
          write (anchored g target) c GateDecision.substitute provenance (some target)
            (GateOutput.substitute target provenance))

  -- What the claim's stream has due.
  unfoldable pub dispatch_due :
      F64Ops F
      → F32Ops G F
      → Gate F
      → Call F
      → ProvenanceTag
      → Option BlendSchedule
      → Option (OwnedAction F)
      → Outcome (Ticked F G)
  unfolding dispatch
  dispatch_due f64 f32 g c provenance fade none =
      done (write g c GateDecision.hold provenance none GateOutput.hold)
  dispatch_due f64 f32 g c provenance fade (some target) =
      dispatch f64 f32 g c provenance fade target

  unfoldable pub gate_mode :
      F64Ops F → F32Ops G F → Gate F → Call F → PlanMode → Outcome (Ticked F G)
  unfolding stream_pop_due dispatch_due
  gate_mode f64 f32 g c PlanMode.passthrough = done (
      write (anchored g (owned c)) c GateDecision.pass policy_tag (some (owned c))
        (GateOutput.pass policy_tag))
  gate_mode f64 f32 g c PlanMode.held =
      done (write g c GateDecision.hold policy_tag none GateOutput.hold)
  gate_mode f64 f32 g c (PlanMode.bypass provenance) =
      done (write g c GateDecision.noop provenance none (GateOutput.noop provenance))
  gate_mode f64 f32 g c (PlanMode.reset provenance) =
      done (write g c GateDecision.reset_active provenance none (GateOutput.noop provenance))
  gate_mode f64 f32 g c (PlanMode.agent_episode provenance) =
      done (write g c GateDecision.agent_episode provenance none (GateOutput.noop provenance))
  gate_mode f64 f32 g c (PlanMode.claimed provenance fade) = do
    due ← stream_pop_due g.stream c.stamp.mono
    dispatch_due f64 f32 (record g { stream = due.0 }) c provenance fade due.1

  unfoldable pub gate_scoped : F64Ops F → F32Ops G F → Gate F → Call F → Outcome (Ticked F G)
  unfolding gate_mode record_tick
  gate_scoped f64 f32 g c = gate_mode f64 f32 (started g c) c c.mode
