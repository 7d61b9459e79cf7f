-- ===== src/Runtime/Reducer/Frames.antt =====
-- What the parts of step_and_apply in reducer.rs leave alone.
use waddle_sdk.Prelude.{◌≡◌, refl, ◌∙◌, ℕ, Option, none, some, List, [], ◌∷◌}
use waddle_sdk.Session.Effect.{Effect}
use waddle_sdk.Session.Event.{SessionEvent}
use waddle_sdk.Runtime.Acks.{StepResult, FinishedAck, put, record_outcome, Groups}
use waddle_sdk.Runtime.Reducer.{Reducer, apply_effect, apply_effects}
use waddle_sdk.Runtime.Reducer.Step.{before_step, answered, acknowledge}

module _ {F : Type 0} where
  -- What only effects and an accepted step change.
  pub record Unmoved (before after : Reducer F) : Type 0 where
    pub cfg : after.cfg ≡ before.cfg
    pub interp : after.interp ≡ before.interp
    pub fsm : after.fsm ≡ before.fsm
    pub plan : after.plan ≡ before.plan
    pub stream : after.stream ≡ before.stream
    pub verbs : after.verbs ≡ before.verbs
    pub mirror : after.mirror ≡ before.mirror
    pub armed : after.armed ≡ before.armed
    pub self_sent : after.self_sent ≡ before.self_sent

  abbrev still : (r : Reducer F) (groups : Groups) → Unmoved r (record r { groups = groups })
  still r groups = record {
    cfg = refl;
    interp = refl;
    fsm = refl;
    plan = refl;
    stream = refl;
    verbs = refl;
    mirror = refl;
    armed = refl;
    self_sent = refl;
  }

  pub Unmoved_trans : {r s t : Reducer F} → Unmoved r s → Unmoved s t → Unmoved r t
  Unmoved_trans h k = record {
    cfg = k.cfg ∙ h.cfg;
    interp = k.interp ∙ h.interp;
    fsm = k.fsm ∙ h.fsm;
    plan = k.plan ∙ h.plan;
    stream = k.stream ∙ h.stream;
    verbs = k.verbs ∙ h.verbs;
    mirror = k.mirror ∙ h.mirror;
    armed = k.armed ∙ h.armed;
    self_sent = k.self_sent ∙ h.self_sent;
  }

  answered-Unmoved :
      (r s : Reducer F) (finished : Option FinishedAck)
      → Unmoved r s
      → Unmoved r (answered s finished)
  answered-Unmoved r s none h = h
  answered-Unmoved r s (some finished) h = record {
    cfg = h.cfg;
    interp = h.interp;
    fsm = h.fsm;
    plan = h.plan;
    stream = h.stream;
    verbs = h.verbs;
    mirror = h.mirror;
    armed = h.armed;
    self_sent = h.self_sent;
  }

  pub acknowledge-Unmoved :
      (r : Reducer F) (at : Option ℕ) (outcome : StepResult) → Unmoved r (acknowledge r at outcome)
  unfolding acknowledge
  acknowledge-Unmoved r none outcome = still r r.groups
  acknowledge-Unmoved r (some at) outcome =
      let groups = put r.groups at (record_outcome (r.groups at) outcome).0 in
      answered-Unmoved r (record r { groups = groups }) (record_outcome (r.groups at) outcome).1
        (still r groups)

  pub before_step-Unmoved : (r : Reducer F) (event : SessionEvent) → Unmoved r (before_step r event)
  unfolding before_step
  before_step-Unmoved r (SessionEvent.episode_open q at) = record {
    cfg = refl;
    interp = refl;
    fsm = refl;
    plan = refl;
    stream = refl;
    verbs = refl;
    mirror = refl;
    armed = refl;
    self_sent = refl;
  }
  before_step-Unmoved r _ = still r r.groups

  abbrev pub Fixed : Reducer F → Reducer F → Type 0
  Fixed r after = (after.cfg ≡ r.cfg) × (after.interp ≡ r.interp) × (after.fsm ≡ r.fsm)

  pub apply_effect-Fixed : (r : Reducer F) (e : Effect) → Fixed r (apply_effect r e)
  unfolding apply_effect
  apply_effect-Fixed r (Effect.set_gate_mode mode) = (refl, refl, refl)
  apply_effect-Fixed r _ = (refl, refl, refl)

  -- The effects are interpreted under one configuration and one state of the machine.
  pub apply_effects-Fixed : (r : Reducer F) (es : List Effect) → Fixed r (apply_effects r es)
  unfolding apply_effects
  apply_effects-Fixed r [] = (refl, refl, refl)
  apply_effects-Fixed r (e ∷ es) =
      let first = apply_effect-Fixed r e in
      let rest = apply_effects-Fixed (apply_effect r e) es in
      (rest.0 ∙ first.0, rest.1 ∙ first.1, rest.2 ∙ first.2)
