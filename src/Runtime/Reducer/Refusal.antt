-- ===== src/Runtime/Reducer/Refusal.antt =====
-- What an event that the machine rejects does to the reducer of reducer.rs.
use waddle_sdk.Prelude.{
  ◌≡◌, refl, ◌∙◌, sym, ap, ℕ, zero, suc, if◌then◌else◌, append_nil, Bool-cases, inl, inr, Bool,
  true, false, Option, none, some, List, [], ◌∷◌, ◌++◌, String,
}
use waddle_sdk.Outcome.{done, rejected}
use waddle_sdk.Session.Event.{SessionEvent}
use waddle_sdk.Session.Machine.{step}
use waddle_sdk.Runtime.Acks.{
  StepResult, AckGroup, FinishedAck, Injected, Groups, answer, first_rejection, put, take_outcome,
  record_outcome,
}
use waddle_sdk.Runtime.Reducer.{Reducer, ToPlane}
use waddle_sdk.Runtime.Reducer.Step.{before_step, answered, acknowledge, step_and_apply}
use waddle_sdk.Runtime.Reducer.Frames.{
  Unmoved, Unmoved_trans, before_step-Unmoved, acknowledge-Unmoved,
}

abbrev pub opens : SessionEvent → Bool
opens (SessionEvent.episode_open q at) = true
opens _ = false

opens_clash : true ≡ false → ⊥
opens_clash h = cc

module _ {F : Type 0} where
  -- What a refusal sends: an ack, where it is the last outcome that the event's group waits for.
  abbrev pub last_refusal : AckGroup → ℕ → String → List (ToPlane F)
  last_refusal g (suc zero) reason =
      ToPlane.ack (answer g.directive_id (first_rejection g.rejection (StepResult.refused reason)))
      ∷ []
  last_refusal g _ reason = []

  abbrev pub refusal_acks : Bool → Groups → Option ℕ → String → List (ToPlane F)
  refusal_acks has_plane groups none reason = []
  refusal_acks has_plane groups (some at) reason =
      if has_plane then last_refusal (groups at) (groups at).remaining reason else []

  acks_answered :
      (r : Reducer F) (groups : Groups) (g : AckGroup) (n : ℕ) (reason : String)
      → (answered
          (record r { groups = groups })
          (take_outcome g n (StepResult.refused reason)).1).sent
        ≡ r.sent ++ (if r.has_plane then last_refusal g n reason else [])
  acks_answered r groups g zero reason = elim (Bool-cases r.has_plane) [
    | inl y ↦ rw y (sym (append_nil r.sent))
    | inr n ↦ rw n (sym (append_nil r.sent))
  ]
  acks_answered r groups g (suc zero) reason = elim (Bool-cases r.has_plane) [
    | inl y ↦ rw y refl
    | inr n ↦ rw n (sym (append_nil r.sent))
  ]
  acks_answered r groups g (suc (suc n)) reason = elim (Bool-cases r.has_plane) [
    | inl y ↦ rw y (sym (append_nil r.sent))
    | inr n ↦ rw n (sym (append_nil r.sent))
  ]

  acknowledge_sent :
      (r : Reducer F) (at : Option ℕ) (reason : String)
      → (acknowledge r at (StepResult.refused reason)).sent
        ≡ r.sent ++ refusal_acks r.has_plane r.groups at reason
  unfolding acknowledge record_outcome
  acknowledge_sent r none reason = sym (append_nil r.sent)
  acknowledge_sent r (some at) reason =
      let g = r.groups at in
      acks_answered r (put r.groups at (take_outcome g g.remaining (StepResult.refused reason)).0) g
        g.remaining reason

  -- The bookkeeping sends nothing, and touches the recording only to open an episode.
  abbrev Quiet : Bool → Reducer F → Reducer F → Type 0
  Quiet opening r after =
      (after.sent ≡ r.sent)
      × (after.has_plane ≡ r.has_plane)
      × (after.groups ≡ r.groups)
      × (opening ≡ false → after.recording ≡ r.recording)

  before_step-Quiet : (r : Reducer F) (e : SessionEvent) → Quiet (opens e) r (before_step r e)
  unfolding before_step
  before_step-Quiet r (SessionEvent.episode_open q at) =
      (refl, refl, refl, λ h. absurd (opens_clash h))
  before_step-Quiet r _ = (refl, refl, refl, λ h. refl)

  answered_recording :
      (r : Reducer F) (o : Option FinishedAck) → (answered r o).recording ≡ r.recording
  answered_recording r none = refl
  answered_recording r (some finished) = refl

  acknowledge_recording :
      (r : Reducer F) (at : Option ℕ) (outcome : StepResult)
      → (acknowledge r at outcome).recording ≡ r.recording
  unfolding acknowledge
  acknowledge_recording r none outcome = refl
  acknowledge_recording r (some at) outcome =
      answered_recording
        (record r { groups = put r.groups at (record_outcome (r.groups at) outcome).0 })
        (record_outcome (r.groups at) outcome).1

  -- A reducer in which an event of the machine's was refused.
  pub record Refused (r : Reducer F) (injected : Injected) (reason : String) : Type 0 where
    pub after : Reducer F
    pub returns : step_and_apply r injected ≡ done after
    pub unmoved : Unmoved r after
    pub sends : after.sent ≡ r.sent ++ refusal_acks r.has_plane r.groups injected.ack reason
    pub records : opens injected.event ≡ false → after.recording ≡ r.recording

  -- An event that the machine rejects leaves the machine's state, the gate's plan and stream, the
  -- verbs, the timers, the status and the events that the reducer sends itself as they were, and
  -- the recording too, unless the event asks to open an episode. Nothing goes to the plane but one
  -- ack, and that exactly where there is a plane, the event belongs to a directive's group and its
  -- outcome is the last that the group waits for; the ack refuses, with the reason of the group's
  -- first rejection.
  pub step_and_apply-Refused :
      (r : Reducer F) (injected : Injected) (reason : String)
      → step r.cfg r.fsm injected.event ≡ rejected reason
      → Refused r injected reason
  unfolding step_and_apply
  step_and_apply-Refused r injected reason h =
      let b = before_step r injected.event in
      let quiet = before_step-Quiet r injected.event in
      record {
        after = acknowledge b injected.ack (StepResult.refused reason);
        returns = rw h refl;
        unmoved =
            Unmoved_trans (before_step-Unmoved r injected.event)
              (acknowledge-Unmoved b injected.ack (StepResult.refused reason));
        sends =
            acknowledge_sent b injected.ack reason
            ∙ ap (λ sent. sent ++ refusal_acks b.has_plane b.groups injected.ack reason) quiet.0
            ∙ rw (quiet.1, quiet.2) refl;
        records = λ other.
            acknowledge_recording b injected.ack (StepResult.refused reason) ∙ quiet.3 other;
      }
