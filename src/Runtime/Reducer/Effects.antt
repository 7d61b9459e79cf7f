-- ===== src/Runtime/Reducer/Effects.antt =====
-- What a row of effects makes of the gate's plan and of the stream, in apply_effect of reducer.rs.
use waddle_sdk.Prelude.{◌≡◌, refl, sym, Option, none, some, List, [], ◌∷◌, inl, inr, Option-cases}
use waddle_sdk.Types.{GateMode}
use waddle_sdk.Types.Time.{MonoNs}
use waddle_sdk.Gate.Jitter.{clear_pending}
use waddle_sdk.Gate.Plan.{GatePlan}
use waddle_sdk.Gate.Tick.{StreamIntake, stream_clear}
use waddle_sdk.Session.Effect.{Effect}
use waddle_sdk.Session.Machine.{last_mode}
use waddle_sdk.Runtime.Reducer.{Reducer, now_of, plan_for, apply_effect, apply_effects}
use waddle_sdk.Runtime.Reducer.Frames.{Fixed, apply_effect-Fixed}

module _ {F : Type 0} where
  -- Nothing waits in the stream.
  abbrev pub IsEmptied : StreamIntake F → Type 0
  IsEmptied s = (s.rx ≡ []) × (s.jitter.teleop.pending ≡ []) × (s.jitter.agent_chunk.pending ≡ [])

  abbrev pub StreamAt : GateMode → StreamIntake F → Type 0
  StreamAt GateMode.passthrough s = IsEmptied s
  StreamAt _ s = Unit

  -- What the effects make of the plan: that of the last gate mode among them.
  abbrev PlanOf : Reducer F → Option GateMode → GatePlan → Type 0
  PlanOf r none plan = plan ≡ r.plan
  PlanOf r (some mode) plan =
      (now : MonoNs) × (plan
        ≡ record { mode = plan_for r.cfg r.interp r.fsm now mode; since = now })

  abbrev StreamOf : Reducer F → Option GateMode → StreamIntake F → Type 0
  StreamOf r none s = IsEmptied r.stream → IsEmptied s
  StreamOf r (some mode) s = StreamAt mode s

  apply_effect-PlanOf :
      (r : Reducer F) (e : Effect) → PlanOf r (last_mode (e ∷ [])) (apply_effect r e).plan
  unfolding apply_effect last_mode
  apply_effect-PlanOf r (Effect.set_gate_mode mode) = (now_of r, refl)
  apply_effect-PlanOf r _ = refl

  apply_effect-StreamOf :
      (r : Reducer F) (e : Effect) → StreamOf r (last_mode (e ∷ [])) (apply_effect r e).stream
  unfolding apply_effect last_mode stream_clear clear_pending
  apply_effect-StreamOf r (Effect.set_gate_mode GateMode.passthrough) = (refl, refl, refl)
  apply_effect-StreamOf r (Effect.set_gate_mode GateMode.intervention) = tt
  apply_effect-StreamOf r (Effect.set_gate_mode GateMode.bypass) = tt
  apply_effect-StreamOf r (Effect.set_gate_mode GateMode.reset) = tt
  apply_effect-StreamOf r _ = λ h. h

  PlanOf-moved :
      (r s : Reducer F) (mode : GateMode) (plan : GatePlan)
      → Fixed r s
      → PlanOf s (some mode) plan
      → PlanOf r (some mode) plan
  PlanOf-moved r s mode plan h p = (p.0, rw (sym h.0, sym h.1, sym h.2) p.1)

  StreamAt-kept :
      (mode : GateMode) (before after : StreamIntake F)
      → (IsEmptied before → IsEmptied after)
      → StreamAt mode before
      → StreamAt mode after
  StreamAt-kept GateMode.passthrough before after f h = f h
  StreamAt-kept GateMode.intervention before after f h = tt
  StreamAt-kept GateMode.bypass before after f h = tt
  StreamAt-kept GateMode.reset before after f h = tt

  StreamOf-kept :
      (r : Reducer F) (m : Option GateMode) (before after : StreamIntake F)
      → (IsEmptied before → IsEmptied after)
      → StreamOf r m before
      → StreamOf r m after
  StreamOf-kept r none before after f h = λ k. f (h k)
  StreamOf-kept r (some mode) before after f h = StreamAt-kept mode before after f h

  -- What a row of effects makes of the plan and the stream.
  abbrev pub Projected : Reducer F → Option GateMode → Reducer F → Type 0
  Projected r m s = PlanOf r m s.plan × StreamOf r m s.stream

  after_first :
      (r s : Reducer F) (m : Option GateMode) (t : Reducer F)
      → Projected r m s
      → Projected s none t
      → Projected r m t
  after_first r s m t h k = (rw k.0 h.0, StreamOf-kept r m s.stream t.stream k.1 h.1)

  apply_effect-Projected :
      (r : Reducer F) (e : Effect) → Projected r (last_mode (e ∷ [])) (apply_effect r e)
  apply_effect-Projected r e = (apply_effect-PlanOf r e, apply_effect-StreamOf r e)

  pub apply_effects-Projected :
      (r : Reducer F) (es : List Effect) → Projected r (last_mode es) (apply_effects r es)
  unfolding apply_effects last_mode
  apply_effects-Projected r [] = (refl, λ h. h)
  apply_effects-Projected r (e ∷ es) =
      let s = apply_effect r e in
      let rest = apply_effects-Projected s es in
      let first = apply_effect-Projected r e in
      elim (Option-cases (last_mode es)) [
        | inl n ↦
            rw n (after_first r s (last_mode (e ∷ [])) (apply_effects s es) first (rw n at rest))
        | inr y ↦ rw y.1 (
          PlanOf-moved r s y.0 (apply_effects s es).plan (apply_effect-Fixed r e)
              (rw y.1 at rest.0),
          (rw y.1 at rest.1),
        )
      ]
