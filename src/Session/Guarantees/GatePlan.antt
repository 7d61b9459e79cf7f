-- ===== src/Session/Guarantees/GatePlan.antt =====
-- The re-projection of the gate plan in `Ctx::finish` of session.rs (N20 and E24).
use waddle_sdk.Prelude.{◌≡◌, true, false, refl, some, List, [], ◌∷◌, ◌++◌, inl, inr, Bool-cases}
use waddle_sdk.Types.{GateMode, same_mode}
use waddle_sdk.Session.Effect.{Effect}
use waddle_sdk.Session.State.{gate_plan_inputs}
use waddle_sdk.Session.Context.{Ctx, push}
use waddle_sdk.Session.Machine.{last_mode, same_inputs, carries, finish}

last_mode-append :
    (es : List Effect) (mode : GateMode)
    → last_mode (es ++ Effect.set_gate_mode mode ∷ []) ≡ some mode
unfolding last_mode
last_mode-append [] mode = refl
last_mode-append (e ∷ es) mode = rw (last_mode-append es mode) refl

same_mode_refl : (m : GateMode) → same_mode m m ≡ true
same_mode_refl GateMode.passthrough = refl
same_mode_refl GateMode.intervention = refl
same_mode_refl GateMode.bypass = refl
same_mode_refl GateMode.reset = refl

-- Where the inputs of the gate plan are not those with which the step began, the last gate mode
-- among the effects of the finished step is the mode of its state; where they are the same, the
-- effects are those of the handler; and the state is the handler's in both cases.
pub finish_plan :
    (c : Ctx)
    → ((finish c).next ≡ c.s)
      × (same_inputs (gate_plan_inputs c.s) c.plan_inputs_at_entry ≡ false
          → carries (last_mode (finish c).effects) (finish c).next.gate_mode ≡ true)
      × (same_inputs (gate_plan_inputs c.s) c.plan_inputs_at_entry ≡ true
          → (finish c).effects ≡ c.effects)
unfolding finish push
finish_plan c = elim (Bool-cases (same_inputs (gate_plan_inputs c.s) c.plan_inputs_at_entry)) [
  | inl y ↦ rw y (refl, λ h. cc, λ h. refl)
  | inr n ↦ elim (Bool-cases (carries (last_mode c.effects) c.s.gate_mode)) [
    | inl k ↦ rw (n, k) (refl, λ h. k, λ h. cc)
    | inr k ↦
        rw (n, k, last_mode-append c.effects c.s.gate_mode)
          (refl, λ h. same_mode_refl c.s.gate_mode, λ h. cc)
  ]
]
