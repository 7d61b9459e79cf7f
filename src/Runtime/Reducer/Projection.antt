-- ===== src/Runtime/Reducer/Projection.antt =====
-- What the gate's plan is after an accepted step of reducer.rs, and so who drives the robot.
use waddle_sdk.Prelude.{
  ◌≡◌, refl, ap, subst, ◌∙◌, Bool, true, false, Option, none, some, if◌then◌else◌,
}
use waddle_sdk.Prelude.Float.{F64Ops, F32Ops}
use waddle_sdk.Outcome.{Outcome, done, rejected, panicked}
use waddle_sdk.Types.Actor.{ProvenanceTag, policy_tag}
use waddle_sdk.Types.{GateMode, same_mode}
use waddle_sdk.Types.Time.{MonoNs}
use waddle_sdk.Types.Chunking.{Interp}
use waddle_sdk.Gate.Plan.{PlanMode}
use waddle_sdk.Gate.Tick.{Gate, Call, GateOutput, Ticked, gate_scoped}
use waddle_sdk.Gate.Tick.Agreement.{MayReturn, Ticks, gate_scoped-Ticks}
use waddle_sdk.Session.State.{SessionConfig, SessionFsm, Step as Stepped, agent_episode_noop}
use waddle_sdk.Session.Machine.{step, last_mode, carries}
use waddle_sdk.Runtime.Acks.{Injected, StepResult}
use waddle_sdk.Runtime.Mirror.{claim_provenance}
use waddle_sdk.Runtime.Reducer.{Reducer, plan_for}
use waddle_sdk.Runtime.Reducer.Step.{before_step, accept, acknowledge, step_and_apply}
use waddle_sdk.Runtime.Reducer.Effects.{StreamAt, apply_effects-Projected}
use waddle_sdk.Runtime.Reducer.Frames.{
  apply_effects-Fixed, before_step-Unmoved, acknowledge-Unmoved,
}

same_mode_eq : (a b : GateMode) → same_mode a b ≡ true → a ≡ b
same_mode_eq GateMode.passthrough GateMode.passthrough h = refl
same_mode_eq GateMode.intervention GateMode.intervention h = refl
same_mode_eq GateMode.bypass GateMode.bypass h = refl
same_mode_eq GateMode.reset GateMode.reset h = refl
same_mode_eq _ _ h = cc

carried : (m : Option GateMode) (mode : GateMode) → carries m mode ≡ true → m ≡ some mode
carried none mode h = cc
carried (some m) mode h = ap some (same_mode_eq m mode h)

-- Who may drive in a gate mode, and whose the actions are: the caller's own actions only in
-- PASSTHROUGH with no agent's episode, the stream only in INTERVENTION.
abbrev pub MayDrive : {F G : Type 0} → GateMode → Bool → ProvenanceTag → GateOutput F G → Type 0
MayDrive GateMode.passthrough false tag (GateOutput.pass p) = p ≡ policy_tag
MayDrive GateMode.passthrough true tag (GateOutput.noop p) = p ≡ tag
MayDrive GateMode.intervention agent tag (GateOutput.substitute a p) = p ≡ tag
MayDrive GateMode.intervention agent tag (GateOutput.blend a t p) = p ≡ tag
MayDrive GateMode.intervention agent tag GateOutput.hold = Unit
MayDrive GateMode.bypass agent tag (GateOutput.noop p) = p ≡ tag
MayDrive GateMode.reset agent tag (GateOutput.noop p) = p ≡ tag
MayDrive _ _ _ _ = ⊥

drives_passthrough :
    {F G : Type 0} (agent : Bool) (tag : ProvenanceTag) (out : GateOutput F G)
    → MayReturn (if agent then PlanMode.agent_episode tag else PlanMode.passthrough) out
    → MayDrive GateMode.passthrough agent tag out
drives_passthrough true tag (GateOutput.noop p) h = h
drives_passthrough true tag _ h = h
drives_passthrough false tag (GateOutput.pass p) h = h
drives_passthrough false tag _ h = h

drives :
    {F G : Type 0} (cfg : SessionConfig) (interp : Interp) (s : SessionFsm) (now : MonoNs)
    (mode : GateMode) (out : GateOutput F G)
    → MayReturn (plan_for cfg interp s now mode) out
    → MayDrive mode (agent_episode_noop s) (claim_provenance s) out
unfolding plan_for
drives cfg interp s now GateMode.passthrough out h =
    drives_passthrough (agent_episode_noop s) (claim_provenance s) out h
drives cfg interp s now GateMode.intervention (GateOutput.substitute a p) h = h
drives cfg interp s now GateMode.intervention _ h = h
drives cfg interp s now GateMode.bypass (GateOutput.noop p) h = h
drives cfg interp s now GateMode.bypass _ h = h
drives cfg interp s now GateMode.reset (GateOutput.noop p) h = h
drives cfg interp s now GateMode.reset _ h = h

-- What a tick returns, of a gate that ticks.
returned :
    {F G : Type 0} (g : Gate F) (c : Call F) (o : Outcome (Ticked F G))
    → Ticks g c o
    → (t : Ticked F G) × (o ≡ done t) × MayReturn c.mode t.output
returned g c (done t) h = (t, refl, h.8)
returned g c (rejected reason) h = absurd h
returned g c (panicked why) h = absurd h

module _ {F G : Type 0} (f64 : F64Ops F) (f32 : F32Ops G F) where
  -- The caller's tick after the reducer's step.
  abbrev pub next_tick : Gate F → Call F → Reducer F → Outcome (Ticked F G)
  next_tick g c r =
      gate_scoped f64 f32 (record g { stream = r.stream }) (record c { mode = r.plan.mode })

  abbrev pub DrivenBy : SessionFsm → Outcome (Ticked F G) → Type 0
  DrivenBy s o =
      (t : Ticked F G) × (o ≡ done t)
      × MayDrive s.gate_mode (agent_episode_noop s) (claim_provenance s) t.output

  pub record TakesHold (r : Reducer F) (injected : Injected) (s : SessionFsm) (g : Gate F)
      (c : Call F) : Type 0 where
    pub after : Reducer F
    pub returns : step_and_apply r injected ≡ done after
    pub state : after.fsm ≡ s
    pub stream : StreamAt s.gate_mode after.stream
    pub ticks : DrivenBy s (next_tick g c after)

  tick-DrivenBy :
      (cfg : SessionConfig) (interp : Interp) (s : SessionFsm) (now : MonoNs) (g : Gate F)
      (c : Call F) (after : Reducer F)
      → f32.lt f32.one f32.one ≡ false
      → after.plan.mode ≡ plan_for cfg interp s now s.gate_mode
      → DrivenBy s (next_tick g c after)
  tick-DrivenBy cfg interp s now g c after h e =
      let own = record g { stream = after.stream } in
      let call = record c { mode = after.plan.mode } in
      let t =
        returned own call (gate_scoped f64 f32 own call)
          (gate_scoped-Ticks f64 f32 own c after.plan.mode h) in
      (
        t.0,
        t.1,
        drives cfg interp s now s.gate_mode t.0.output
            (subst (λ mode. MayReturn mode t.0.output) e t.2),
      )

  -- Where the machine accepts an event and the last gate mode among the effects is that of its next
  -- state, and 1 < 1 is false on f32: the reducer takes the event, its machine is in that state, and
  -- the next tick of the caller's gate returns and obeys it. The caller's own action gets out only
  -- in PASSTHROUGH with no agent's episode running; a streamed action only in INTERVENTION, under
  -- the provenance of the claim in force; every other state dispatches nothing. And in PASSTHROUGH
  -- nothing that was streamed under an earlier claim waits in the stream.
  pub step_and_apply-TakesHold :
      (r : Reducer F) (injected : Injected) (stepped : Stepped) (g : Gate F) (c : Call F)
      → step r.cfg r.fsm injected.event ≡ done stepped
      → carries (last_mode stepped.effects) stepped.next.gate_mode ≡ true
      → f32.lt f32.one f32.one ≡ false
      → TakesHold r injected stepped.next g c
  unfolding step_and_apply accept
  step_and_apply-TakesHold r injected stepped g c h last one =
      let b = before_step r injected.event in
      let moved = before_step-Unmoved r injected.event in
      let begun = record b { fsm = stepped.next } in
      let applied = accept b stepped in
      let after = acknowledge applied injected.ack StepResult.accepted in
      let quiet = acknowledge-Unmoved applied injected.ack StepResult.accepted in
      let mode = carried (last_mode stepped.effects) stepped.next.gate_mode last in
      let projected = apply_effects-Projected begun stepped.effects in
      let planned = (rw mode at projected.0) in
      record {
        after = after;
        returns = rw h refl;
        state = quiet.fsm ∙ (apply_effects-Fixed begun stepped.effects).2;
        stream = rw quiet.stream (rw mode at projected.1);
        ticks =
            tick-DrivenBy b.cfg b.interp stepped.next planned.0 g c after one
              (ap (λ p. p.mode) (quiet.plan ∙ planned.1));
      }
