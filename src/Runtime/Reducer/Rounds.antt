-- ===== src/Runtime/Reducer/Rounds.antt =====
-- Which timers a round of the loop of reducer.rs fires, and that none is ever armed twice.
use waddle_sdk.Prelude.{
  ◌≡◌, refl, ◌∙◌, ℕ, ◌+◌, Bool, true, false, not, Option, none, some, List, [], ◌∷◌, ◌++◌, inl, inr,
  Bool-cases,
}
use waddle_sdk.Outcome.{Outcome, done, rejected, panicked, ◌>>=◌}
use waddle_sdk.Types.Time.{MonoNs}
use waddle_sdk.Session.Effect.{TimerId, Effect}
use waddle_sdk.Session.Event.{SessionEvent}
use waddle_sdk.Session.State.{Step}
use waddle_sdk.Runtime.Recording.{drain}
use waddle_sdk.Session.Machine.{step}
use waddle_sdk.Runtime.Acks.{StepResult, Injected, from_event}
use waddle_sdk.Runtime.Timers.{Armed, same_timer, retain, arm, cancel, due, pending}
use waddle_sdk.Runtime.Timers.Table.{
  Unarmed, AtMostOnce, InOrder, same_timer_comm, retain-AtMostOnce,
}
use waddle_sdk.Runtime.Timers.Due.{Fires, due-Fires}
use waddle_sdk.Runtime.Reducer.{Reducer, now_of, apply_effect, apply_effects}
use waddle_sdk.Runtime.Reducer.Step.{before_step, accept, conclude, step_and_apply}
use waddle_sdk.Runtime.Reducer.Loop.{uplinked, fire, receive, woken, round}
use waddle_sdk.Runtime.Reducer.Taken.{taken, take_all, fire_takes}
use waddle_sdk.Runtime.Reducer.Frames.{before_step-Unmoved, acknowledge-Unmoved}

cancel-Unarmed : (id : TimerId) (ts : Armed) → Unarmed id (cancel id ts)
unfolding cancel retain
cancel-Unarmed id [] = tt
cancel-Unarmed id (t ∷ ts) = elim (Bool-cases (same_timer t.0 id)) [
  | inl y ↦ rw y (cancel-Unarmed id ts)
  | inr n ↦ rw n (n, cancel-Unarmed id ts)
]

Unarmed-append :
    (other id : TimerId) (d : MonoNs) (ts : Armed)
    → same_timer id other ≡ false
    → Unarmed other ts
    → Unarmed other (ts ++ (id, d) ∷ [])
Unarmed-append other id d [] e h = (e, tt)
Unarmed-append other id d (t ∷ ts) e h = (h.0, Unarmed-append other id d ts e h.1)

AtMostOnce-append :
    (id : TimerId) (d : MonoNs) (ts : Armed)
    → Unarmed id ts
    → AtMostOnce ts
    → AtMostOnce (ts ++ (id, d) ∷ [])
AtMostOnce-append id d [] h k = (tt, tt)
AtMostOnce-append id d (t ∷ ts) h k = (
  Unarmed-append t.0 id d ts (same_timer_comm id t.0 ∙ h.0) k.0,
  AtMostOnce-append id d ts h.1 k.1,
)

arm-AtMostOnce : (id : TimerId) (d : MonoNs) (ts : Armed) → AtMostOnce ts → AtMostOnce (arm id d ts)
unfolding arm cancel
arm-AtMostOnce id d ts h =
    AtMostOnce-append id d (cancel id ts) (cancel-Unarmed id ts)
      (retain-AtMostOnce (λ t. not (same_timer t.0 id)) ts h)

module _ {F : Type 0} where
  apply_effect-AtMostOnce :
      (r : Reducer F) (e : Effect) → AtMostOnce r.armed → AtMostOnce (apply_effect r e).armed
  unfolding apply_effect cancel
  apply_effect-AtMostOnce r (Effect.arm_timer id deadline) h = arm-AtMostOnce id deadline r.armed h
  apply_effect-AtMostOnce r (Effect.cancel_timer id) h =
      retain-AtMostOnce (λ t. not (same_timer t.0 id)) r.armed h
  apply_effect-AtMostOnce r _ h = h

  apply_effects-AtMostOnce :
      (r : Reducer F) (es : List Effect)
      → AtMostOnce r.armed
      → AtMostOnce (apply_effects r es).armed
  unfolding apply_effects
  apply_effects-AtMostOnce r [] h = h
  apply_effects-AtMostOnce r (e ∷ es) h =
      apply_effects-AtMostOnce (apply_effect r e) es (apply_effect-AtMostOnce r e h)

  -- The table of what a computation returns.
  abbrev pub Tabled : Outcome (Reducer F) → Type 0
  Tabled (done r) = AtMostOnce r.armed
  Tabled _ = Unit

  conclude-Tabled :
      (r : Reducer F) (at : Option ℕ) (o : Outcome Step)
      → AtMostOnce r.armed
      → Tabled (conclude r at o)
  unfolding accept
  conclude-Tabled r at (done stepped) h =
      rw (acknowledge-Unmoved (accept r stepped) at StepResult.accepted).armed
        (apply_effects-AtMostOnce (record r { fsm = stepped.next }) stepped.effects h)
  conclude-Tabled r at (rejected reason) h =
      rw (acknowledge-Unmoved r at (StepResult.refused reason)).armed h
  conclude-Tabled r at (panicked why) h = tt

  step_and_apply-Tabled :
      (r : Reducer F) (injected : Injected)
      → AtMostOnce r.armed
      → Tabled (step_and_apply r injected)
  unfolding step_and_apply
  step_and_apply-Tabled r injected h =
      conclude-Tabled (before_step r injected.event) injected.ack (step r.cfg r.fsm injected.event)
        (rw (before_step-Unmoved r injected.event).armed h)

  Tabled-bind :
      (o : Outcome (Reducer F)) (f : Reducer F → Outcome (Reducer F))
      → ((r : Reducer F) → AtMostOnce r.armed → Tabled (f r))
      → Tabled o
      → Tabled (o >>= f)
  Tabled-bind (done r) f k h = k r h
  Tabled-bind (rejected reason) f k h = tt
  Tabled-bind (panicked why) f k h = tt

  fire-Tabled : (r : Reducer F) (ts : Armed) → AtMostOnce r.armed → Tabled (fire r ts)
  unfolding fire
  fire-Tabled r [] h = h
  fire-Tabled r (t ∷ ts) h =
      let injected = from_event (SessionEvent.timer_fired t.0 t.1) in
      Tabled-bind (step_and_apply r injected) (λ next. fire next ts)
        (λ next k. fire-Tabled next ts k) (step_and_apply-Tabled r injected h)

  receive-Tabled :
      (r : Reducer F) (received : Option Injected)
      → AtMostOnce r.armed
      → Tabled (receive r received)
  receive-Tabled r none h = h
  receive-Tabled r (some injected) h = step_and_apply-Tabled r injected h

  uplinked_armed :
      (r : Reducer F) (now : MonoNs) (has_plane : Bool) → (uplinked r now has_plane).armed ≡ r.armed
  uplinked_armed r now true = refl
  uplinked_armed r now false = refl

  woken_armed : (r : Reducer F) → (woken r).armed ≡ r.armed
  unfolding woken
  woken_armed r =
      uplinked_armed (record r { reads = r.reads + 1; recording = drain r.recording }) (now_of r)
        r.has_plane

  -- The timers that are due fire, and then the event that was received is taken.
  abbrev fired_then_received : Reducer F → Option Injected → Outcome (Reducer F)
  fired_then_received r received =
      fire (record (woken r) { armed = pending (now_of r) r.armed }) (due (now_of r) r.armed)
      >>= λ fired. receive fired received

  round_fires :
      (r : Reducer F) (received : Option Injected)
      → round r received ≡ fired_then_received r received
  unfolding round
  round_fires r received = rw (woken_armed r) refl

  -- What a round does to the timers: which fire, in which order, and what it leaves armed.
  abbrev pub FiresDue : Reducer F → Option Injected → Type 0
  FiresDue r received =
      (round r received
        ≡ take_all (record (woken r) { armed = pending (now_of r) r.armed })
            (taken (due (now_of r) r.armed) received))
      × ((t : TimerId × MonoNs) → Fires (now_of r) r.armed t)
      × InOrder (due (now_of r) r.armed)
      × AtMostOnce (due (now_of r) r.armed)
      × Tabled (round r received)

  -- Where every timer is armed at most once, a round of the loop steps on exactly these events: the
  -- timers whose deadline is not after its instant, each once, at its deadline and in the order of
  -- the deadlines, and then the event that it received, if any; the other timers stay armed
  -- meanwhile; and every timer is again
  -- armed at most once in the state that the round returns, whatever the fired events and the
  -- received one arm and cancel.
  pub round-FiresDue :
      (r : Reducer F) (received : Option Injected) → AtMostOnce r.armed → FiresDue r received
  round-FiresDue r received once =
      let now = now_of r in
      let fires = due-Fires now r.armed once in
      let w = record (woken r) { armed = pending now r.armed } in
      (
        round_fires r received ∙ fire_takes w (due now r.armed) received,
        fires.0,
        fires.2,
        fires.1,
        rw (round_fires r received) (
            Tabled-bind (fire w (due now r.armed)) (λ fired. receive fired received)
              (λ fired k. receive-Tabled fired received k)
              (fire-Tabled w (due now r.armed) fires.3)),
      )
