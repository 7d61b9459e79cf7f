-- ===== src/Runtime/Reducer/Taken.antt =====
-- The events that a round of the loop of reducer.rs takes, one by one.
use waddle_sdk.Prelude.{◌≡◌, refl, sym, ◌∙◌, Option, none, some, List, [], ◌∷◌}
use waddle_sdk.Outcome.{Outcome, done, rejected, panicked, ◌>>=◌}
use waddle_sdk.Session.Event.{SessionEvent}
use waddle_sdk.Runtime.Acks.{Injected, from_event}
use waddle_sdk.Runtime.Timers.{Armed}
use waddle_sdk.Runtime.Reducer.{Reducer}
use waddle_sdk.Runtime.Reducer.Step.{step_and_apply}
use waddle_sdk.Runtime.Reducer.Loop.{fire, receive}

-- What a round is to take: each of these timers, at its deadline and with no ack, then the event
-- that was received, if any.
abbrev pub taken : Armed → Option Injected → List Injected
taken [] none = []
taken [] (some injected) = injected ∷ []
taken ((id, deadline) ∷ ts) received =
    record { event = SessionEvent.timer_fired id deadline; ack = none } ∷ taken ts received

module _ {F : Type 0} where
  -- These events, one after the other.
  unfoldable pub take_all : Reducer F → List Injected → Outcome (Reducer F)
  unfolding step_and_apply
  take_all r [] = done r
  take_all r (injected ∷ rest) = step_and_apply r injected >>= λ next. take_all next rest

  take_one : (o : Outcome (Reducer F)) → (o >>= λ next. take_all next []) ≡ o
  unfolding take_all
  take_one (done r) = refl
  take_one (rejected reason) = refl
  take_one (panicked why) = refl

  bind_assoc :
      (o : Outcome (Reducer F)) (f g : Reducer F → Outcome (Reducer F))
      → ((o >>= f) >>= g) ≡ (o >>= λ r. f r >>= g)
  bind_assoc (done r) f g = refl
  bind_assoc (rejected reason) f g = refl
  bind_assoc (panicked why) f g = refl

  bind_same :
      (o : Outcome (Reducer F)) (f g : Reducer F → Outcome (Reducer F))
      → ((r : Reducer F) → f r ≡ g r)
      → (o >>= f) ≡ (o >>= g)
  bind_same (done r) f g h = h r
  bind_same (rejected reason) f g h = refl
  bind_same (panicked why) f g h = refl

  pub fire_takes :
      (r : Reducer F) (ts : Armed) (received : Option Injected)
      → (fire r ts >>= λ fired. receive fired received) ≡ take_all r (taken ts received)
  unfolding fire take_all from_event
  fire_takes r [] none = refl
  fire_takes r [] (some injected) = sym (take_one (step_and_apply r injected))
  fire_takes r (t ∷ ts) received =
      let o = step_and_apply r (from_event (SessionEvent.timer_fired t.0 t.1)) in
      bind_assoc o (λ next. fire next ts) (λ fired. receive fired received)
      ∙ bind_same o (λ next. fire next ts >>= λ fired. receive fired received)
          (λ next. take_all next (taken ts received)) (λ next. fire_takes next ts received)
