-- ===== src/Gate/Tick/Agreement.antt =====
-- What a tick of gate.rs in waddle-core/crates/waddle-gate/src returns, records and keeps, in every
-- mode of the plan.
use waddle_sdk.Prelude.{
  ◌+◌, ◌≡◌, false, refl, inl, inr, Option, none, some, [], if◌then◌else◌, Bool-cases,
}
use waddle_sdk.Prelude.Float.{F64Ops, F32Ops}
use waddle_sdk.Outcome.{Outcome, done, panicked, rejected, ◌>>=◌}
use waddle_sdk.Types.Time.{MonoNs}
use waddle_sdk.Types.Actor.{ProvenanceTag, policy_tag}
use waddle_sdk.Gate.Action.{OwnedAction}
use waddle_sdk.Gate.Jitter.{JitterBuffer, u64, pop_due}
use waddle_sdk.Gate.Jitter.Order.{PlaysDue, pop_due-PlaysDue}
use waddle_sdk.Gate.Plan.{BlendSchedule, PlanMode}
use waddle_sdk.Gate.Tick.{
  GateDecision, StreamIntake, Gate, Call, GateOutput, Ticked, drain, stream_pop_due, owned, started,
  blended_to, blend_progress, dispatch_due, gate_mode, gate_scoped,
}

abbrev pub or_else : {A : Type 0} → Option A → Option A → Option A
or_else none b = b
or_else (some a) b = some a

-- The provenance that a mode puts on what its ticks record.
abbrev pub authority : PlanMode → ProvenanceTag
authority PlanMode.passthrough = policy_tag
authority PlanMode.held = policy_tag
authority (PlanMode.claimed provenance fade) = provenance
authority (PlanMode.bypass provenance) = provenance
authority (PlanMode.reset provenance) = provenance
authority (PlanMode.agent_episode provenance) = provenance

abbrev pub StreamKept : {F : Type 0} → PlanMode → StreamIntake F → StreamIntake F → Type 0
StreamKept (PlanMode.claimed provenance fade) before after = after.rx ≡ []
StreamKept _ before after = after ≡ before

-- What a pop of the stream answers.
abbrev pub Popped :
    {F : Type 0} → StreamIntake F → Outcome (StreamIntake F × Option (OwnedAction F)) → Type 0
Popped {F} s o = (r : StreamIntake F × Option (OwnedAction F)) × (o ≡ done r) × (r.0.rx ≡ [])

Popped-after :
    {F : Type 0} (s : StreamIntake F) (b : JitterBuffer F) (now : MonoNs)
    (o : Outcome (JitterBuffer F × Option (OwnedAction F)))
    → PlaysDue b now o
    → Popped s (o >>= λ r. done (record { rx = []; jitter = r.0 }, r.1))
Popped-after s b now (done r) h = ((record { rx = []; jitter = r.0 }, r.1), refl, refl)
Popped-after s b now (panicked why) h = absurd h
Popped-after s b now (rejected why) h = absurd h

pub popped : {F : Type 0} (s : StreamIntake F) (now : MonoNs) → Popped s (stream_pop_due s now)
unfolding stream_pop_due
popped s now =
    Popped-after s (drain s.rx s.jitter) now (pop_due (drain s.rx s.jitter) now)
      (pop_due-PlaysDue (drain s.rx s.jitter) now)

module _ {F G : Type 0} where
  -- What the robot is to execute on this tick.
  abbrev pub commanded : Call F → GateOutput F G → Option (OwnedAction F)
  commanded c (GateOutput.pass provenance) = some (owned c)
  commanded c (GateOutput.substitute action provenance) = some action
  commanded c (GateOutput.blend action progress provenance) = some action
  commanded c (GateOutput.noop provenance) = none
  commanded c GateOutput.hold = none

  -- Only passthrough lets the caller's own action out, and only a claim a streamed one.
  abbrev pub MayReturn : PlanMode → GateOutput F G → Type 0
  MayReturn PlanMode.passthrough (GateOutput.pass provenance) = provenance ≡ policy_tag
  MayReturn (PlanMode.claimed p fade) (GateOutput.substitute action provenance) = provenance ≡ p
  MayReturn (PlanMode.claimed p fade) (GateOutput.blend action progress provenance) = provenance ≡ p
  MayReturn (PlanMode.claimed p fade) GateOutput.hold = Unit
  MayReturn PlanMode.held GateOutput.hold = Unit
  MayReturn (PlanMode.bypass p) (GateOutput.noop provenance) = provenance ≡ p
  MayReturn (PlanMode.reset p) (GateOutput.noop provenance) = provenance ≡ p
  MayReturn (PlanMode.agent_episode p) (GateOutput.noop provenance) = provenance ≡ p
  MayReturn _ _ = ⊥

  -- What a tick of a mode with this output goes down as.
  abbrev pub entered_as : PlanMode → GateOutput F G → GateDecision
  entered_as (PlanMode.reset p) (GateOutput.noop provenance) = GateDecision.reset_active
  entered_as (PlanMode.agent_episode p) (GateOutput.noop provenance) = GateDecision.agent_episode
  entered_as mode (GateOutput.pass provenance) = GateDecision.pass
  entered_as mode (GateOutput.substitute action provenance) = GateDecision.substitute
  entered_as mode (GateOutput.blend action progress provenance) = GateDecision.blend
  entered_as mode (GateOutput.noop provenance) = GateDecision.noop
  entered_as mode GateOutput.hold = GateDecision.hold

  abbrev pub Agrees : Gate F → Call F → Ticked F G → Type 0
  Agrees g c r =
      (r.written.stamp ≡ c.stamp)
      × (r.written.obs ≡ c.obs)
      × (r.written.seq ≡ r.gate.seq)
      × (r.written.provenance ≡ authority c.mode)
      × (r.written.action ≡ commanded c r.output)
      × (r.gate.last_action ≡ or_else (commanded c r.output) g.last_action)
      × (r.gate.seq ≡ u64 (g.seq + 1))
      × (r.gate.records_dropped
          ≡ (if c.has_room then g.records_dropped else u64 (g.records_dropped + 1)))
      × MayReturn c.mode r.output
      × StreamKept c.mode g.stream r.gate.stream
      × (r.written.decision ≡ entered_as c.mode r.output)

  abbrev pub Ticks : Gate F → Call F → Outcome (Ticked F G) → Type 0
  Ticks g c (done r) = Agrees g c r
  Ticks g c _ = ⊥

  blended-Agrees :
      (f64 : F64Ops F) (f32 : F32Ops G F) (g : Gate F) (c : Call F) (provenance : ProvenanceTag)
      (fade : Option BlendSchedule) (s : StreamIntake F) (t : G) (out : Option (OwnedAction F))
      → s.rx ≡ []
      → Agrees g
          (record c { mode = PlanMode.claimed provenance fade })
          (blended_to
            (record (started g c) { stream = s })
            (record c { mode = PlanMode.claimed provenance fade })
            provenance
            t
            out)
  blended-Agrees f64 f32 g c provenance fade s t none e =
      (refl, refl, refl, refl, refl, refl, refl, refl, tt, e, refl)
  blended-Agrees f64 f32 g c provenance fade s t (some a) e =
      (refl, refl, refl, refl, refl, refl, refl, refl, refl, e, refl)

  dispatch-Ticks :
      (f64 : F64Ops F) (f32 : F32Ops G F) (g : Gate F) (c : Call F) (provenance : ProvenanceTag)
      (fade : Option BlendSchedule) (s : StreamIntake F) (due : Option (OwnedAction F))
      → f32.lt f32.one f32.one ≡ false
      → s.rx ≡ []
      → Ticks g
          (record c { mode = PlanMode.claimed provenance fade })
          (dispatch_due f64 f32
            (record (started g c) { stream = s })
            (record c { mode = PlanMode.claimed provenance fade })
            provenance
            fade
            due)
  unfolding dispatch_due
  dispatch-Ticks f64 f32 g c provenance fade s none h e =
      (refl, refl, refl, refl, refl, refl, refl, refl, tt, e, refl)
  dispatch-Ticks f64 f32 g c provenance none s (some a) h e =
      rw h (refl, refl, refl, refl, refl, refl, refl, refl, refl, e, refl)
  dispatch-Ticks f64 f32 g c provenance (some b) s (some a) h e =
      elim (Bool-cases (f32.lt (blend_progress f64 f32 (some b) c.stamp.mono) f32.one)) [
        | inl early ↦ rw early (blended-Agrees f64 f32 g c provenance (some b) s _ _ e)
        | inr late ↦ rw late (refl, refl, refl, refl, refl, refl, refl, refl, refl, e, refl)
      ]

  claimed-Ticks :
      (f64 : F64Ops F) (f32 : F32Ops G F) (g : Gate F) (c : Call F) (provenance : ProvenanceTag)
      (fade : Option BlendSchedule)
      → f32.lt f32.one f32.one ≡ false
      → Ticks g
          (record c { mode = PlanMode.claimed provenance fade })
          (gate_mode f64 f32
            (started g c)
            (record c { mode = PlanMode.claimed provenance fade })
            (PlanMode.claimed provenance fade))
  unfolding gate_mode
  claimed-Ticks f64 f32 g c provenance fade h =
      (let (r, e, empty) = popped g.stream c.stamp.mono in
        rw e (dispatch-Ticks f64 f32 g c provenance fade r.0 r.1 h empty))

  -- In every mode of the plan a tick of a gate returns, where 1 < 1 is false on f32, and its record
  -- agrees with what it returns: the record has the tick's instants, the caller's observation, the
  -- next sequence number, the mode's provenance, the action that the robot is to execute, if any, and
  -- the decision that goes with the mode and with what the tick returns.
  -- That action is the next blend anchor, and with no such action the anchor stays. A record that
  -- finds the ring full is counted, and no other. Only passthrough lets the caller's own action out,
  -- only a claim dispatches from the stream, and every other mode leaves the stream as it was.
  pub gate_scoped-Ticks :
      (f64 : F64Ops F) (f32 : F32Ops G F) (g : Gate F) (c : Call F) (mode : PlanMode)
      → f32.lt f32.one f32.one ≡ false
      → Ticks g (record c { mode = mode }) (gate_scoped f64 f32 g (record c { mode = mode }))
  unfolding gate_scoped
  gate_scoped-Ticks f64 f32 g c PlanMode.passthrough h =
      (refl, refl, refl, refl, refl, refl, refl, refl, refl, refl, refl)
  gate_scoped-Ticks f64 f32 g c PlanMode.held h =
      (refl, refl, refl, refl, refl, refl, refl, refl, tt, refl, refl)
  gate_scoped-Ticks f64 f32 g c (PlanMode.bypass provenance) h =
      (refl, refl, refl, refl, refl, refl, refl, refl, refl, refl, refl)
  gate_scoped-Ticks f64 f32 g c (PlanMode.reset provenance) h =
      (refl, refl, refl, refl, refl, refl, refl, refl, refl, refl, refl)
  gate_scoped-Ticks f64 f32 g c (PlanMode.agent_episode provenance) h =
      (refl, refl, refl, refl, refl, refl, refl, refl, refl, refl, refl)
  gate_scoped-Ticks f64 f32 g c (PlanMode.claimed provenance fade) h =
      claimed-Ticks f64 f32 g c provenance fade h
