-- ===== src/Runtime/Bypass/Audit.antt =====
-- What the bypass pump of pumps.rs sends, and what it leaves for the recording.
use waddle_sdk.Prelude.{
  ◌≡◌, refl, sym, ap, subst, ◌∙◌, ℕ, ◌+◌, if◌then◌else◌, Bool, true, false, Option, none, some,
  List, [], ◌∷◌, ◌++◌, append_nil, append_assoc,
}
use waddle_sdk.Outcome.{Outcome, done, rejected, panicked, ◌>>=◌}
use waddle_sdk.Types.{GateMode}
use waddle_sdk.Session.Event.{SessionEvent}
use waddle_sdk.Gate.Action.{OwnedAction}
use waddle_sdk.Gate.Jitter.{u64}
use waddle_sdk.Types.Actor.{ProvenanceTag, policy_tag}
use waddle_sdk.Gate.Tick.{StreamIntake, stream_pop_due}
use waddle_sdk.Gate.Tick.Agreement.{popped}
use waddle_sdk.Runtime.Acks.{Injected, from_event}
use waddle_sdk.Runtime.Rows.{DispatchedAction}
use waddle_sdk.Runtime.Bypass.{
  BypassPump, Round, SendChunk, to_send, or_policy, row_of, drive, dispatch_due_intervention,
  is_stalled, supervise, bypass_round, run_bypass,
}
use waddle_sdk.Runtime.Bypass.Reference.{
  may_drive, driven, reports_at, reports, Returns, tag_of, Onward, AskFor, row_before, wanted,
  Audited,
}

Returns-bind :
    {A B : Type 0} (P : A → Type 0) (Q : B → Type 0) (o : Outcome A) (f : A → Outcome B)
    → Returns P o
    → ((a : A) → P a → Returns Q (f a))
    → Returns Q (o >>= f)
Returns-bind P Q (done a) f h k = k a h
Returns-bind P Q (rejected reason) f h k = absurd h
Returns-bind P Q (panicked m) f h k = absurd h

joined :
    {A : Type 0} (before middle after front back : List A)
    → middle ≡ before ++ front
    → after ≡ middle ++ back
    → after ≡ before ++ (front ++ back)
joined before middle after front back h k =
    k ∙ ap (λ xs. xs ++ back) h ∙ append_assoc before front back

module _ {F : Type 0} where
  -- What one round adds, and that the rows of the rounds after it follow from where it ends.
  abbrev Advances :
      ℕ
      → Round
      → BypassPump F
      → List Injected
      → (Onward F → List (DispatchedAction F))
      → BypassPump F
      → Type 0
  Advances dims r p told from q =
      (rows : List (DispatchedAction F)) × (sent : List (SendChunk F)) × (q.recorder
        ≡ p.recorder ++ rows)
      × (q.sends ≡ p.sends ++ sent)
      × AskFor dims rows sent
      × (q.inject ≡ p.inject ++ told)
      × ((onward : Onward F) → from onward ≡ rows ++ onward q.seq q.stream)

  abbrev from_stream : Round → BypassPump F → Onward F → List (DispatchedAction F)
  from_stream r p onward = row_before onward r p.seq (stream_pop_due p.stream r.stamp.mono)

  abbrev from_round :
      Round → BypassPump F → Option GateMode → Bool → Bool → Onward F → List (DispatchedAction F)
  from_round r p mode claim_active stalled onward =
      if may_drive mode claim_active stalled then from_stream r p onward else onward p.seq p.stream

  quiet :
      (dims : ℕ) (r : Round) (p : BypassPump F) (told : List Injected)
      → Advances dims r p told
          (λ onward. onward p.seq p.stream)
          (record p { inject = p.inject ++ told })
  quiet dims r p told =
      ([], [], sym (append_nil p.recorder), sym (append_nil p.sends), tt, refl, λ onward. refl)

  silent :
      (dims : ℕ) (r : Round) (p : BypassPump F)
      → Advances dims r p [] (λ onward. onward p.seq p.stream) p
  silent dims r p = (
    [],
    [],
    sym (append_nil p.recorder),
    sym (append_nil p.sends),
    tt,
    sym (append_nil p.inject),
    λ onward. refl,
  )

  same_tag :
      (r : Round) (action : OwnedAction F) (seq : ℕ) (stream : StreamIntake F) (onward : Onward F)
      (tag : Option ProvenanceTag)
      → ◌≡◌ {A = List (DispatchedAction F)}
          (record { stamp = r.stamp; seq = seq; provenance = tag_of tag; action = action }
            ∷ onward seq stream)
          (record { stamp = r.stamp; seq = seq; provenance = or_policy tag; action = action }
            ∷ onward seq stream)
  unfolding policy_tag
  same_tag r action seq stream onward none = refl
  same_tag r action seq stream onward (some tag) = refl

  drive-Advances :
      (dims : ℕ) (r : Round) (p : BypassPump F) (due : StreamIntake F × Option (OwnedAction F))
      → stream_pop_due p.stream r.stamp.mono ≡ done due
      → Advances dims r p [] (from_stream r p) (drive dims r p due)
  unfolding drive policy_tag
  drive-Advances dims r p (stream, none) e = (
    [],
    [],
    sym (append_nil p.recorder),
    sym (append_nil p.sends),
    tt,
    sym (append_nil p.inject),
    λ onward. rw e refl,
  )
  drive-Advances dims r p (stream, some action) e =
      let row = row_of (u64 (p.seq + 1)) r action in
      (
        row ∷ [],
        to_send dims row ∷ [],
        refl,
        refl,
        ((refl, refl, refl, refl, refl, refl, refl, refl, refl), tt),
        sym (append_nil p.inject),
        λ onward. rw e (same_tag r action (u64 (p.seq + 1)) stream onward r.status.provenance),
      )

  due-Advances :
      (dims : ℕ) (r : Round) (p : BypassPump F)
      → Returns (Advances dims r p [] (from_stream r p)) (dispatch_due_intervention dims r p)
  unfolding dispatch_due_intervention
  due-Advances dims r p =
      let (due, e, empty) = popped p.stream r.stamp.mono in
      subst
        (λ o. Returns (Advances dims r p [] (from_stream r p)) (o >>= λ d. done (drive dims r p d)))
        (sym e) (drive-Advances dims r p due e)

  supervise-Advances :
      (dims : ℕ) (r : Round) (p : BypassPump F) (mode : Option GateMode)
      (claim_active stalled : Bool)
      → Returns
          (Advances dims r p
            (reports_at r.stamp.mono mode claim_active stalled)
            (from_round r p mode claim_active stalled))
          (supervise dims r p mode claim_active stalled)
  unfolding supervise from_event
  supervise-Advances dims r p none claim_active stalled = silent dims r p
  supervise-Advances dims r p (some GateMode.passthrough) claim_active stalled = silent dims r p
  supervise-Advances dims r p (some GateMode.intervention) true true =
      quiet dims r p (record { event = SessionEvent.stall_detected r.stamp.mono; ack = none } ∷ [])
  supervise-Advances dims r p (some GateMode.intervention) true false = silent dims r p
  supervise-Advances dims r p (some GateMode.intervention) false stalled = silent dims r p
  supervise-Advances dims r p (some GateMode.bypass) claim_active true = due-Advances dims r p
  supervise-Advances dims r p (some GateMode.bypass) claim_active false =
      quiet dims r p (record { event = SessionEvent.ticks_resumed r.stamp.mono; ack = none } ∷ [])
  supervise-Advances dims r p (some GateMode.reset) true stalled = due-Advances dims r p
  supervise-Advances dims r p (some GateMode.reset) false stalled = silent dims r p

  AskFor-append :
      (dims : ℕ) (xs ys : List (DispatchedAction F)) (us vs : List (SendChunk F))
      → AskFor dims xs us
      → AskFor dims ys vs
      → AskFor dims (xs ++ ys) (us ++ vs)
  AskFor-append dims [] ys [] vs h k = k
  AskFor-append dims (d ∷ ds) ys (u ∷ us) vs h k = (h.0, AskFor-append dims ds ys us vs h.1 k)
  AskFor-append dims [] ys (u ∷ us) vs h k = absurd h
  AskFor-append dims (d ∷ ds) ys [] vs h k = absurd h

  further :
      (dims : ℕ) (r : Round) (rs : List Round) (p q : BypassPump F) (told : List Injected)
      (o : Outcome (BypassPump F))
      → reports (r ∷ rs) ≡ told ++ reports rs
      → Advances dims r p told
          (λ onward. if driven r then from_stream r p onward else onward p.seq p.stream)
          q
      → Returns (Audited dims q rs) o
      → Returns (Audited dims p (r ∷ rs)) o
  unfolding wanted
  further dims r rs p q told (done end) h (rows, sent, a, b, c, d, e) (more, a2, b2, c2, d2) =
      let on = e (λ n s. wanted rs n s) in
      (
        sent ++ more,
        joined p.recorder q.recorder end.recorder rows (wanted rs q.seq q.stream) a a2
            ∙ ap (λ xs. p.recorder ++ xs) (sym on),
        joined p.sends q.sends end.sends sent more b b2,
        rw on (AskFor-append dims rows (wanted rs q.seq q.stream) sent more c c2),
        rw h (joined p.inject q.inject end.inject told (reports rs) d d2),
      )
  further dims r rs p q told (rejected reason) h k l = absurd l
  further dims r rs p q told (panicked why) h k l = absurd l

  -- Every run of rounds returns. The rows that it hands to the recorder are, in order, those of the
  -- actions that are due in the stream at the rounds that drive: in BYPASS while the caller's loop is
  -- stalled, and in RESET under a claim; each has the instant of its round, the provenance of the status
  -- or else the policy's, and the number after the one before, modulo 2^64. It requests one send for
  -- each row, in the same order, of the row's action, part and velocity hint included, under its number,
  -- provenance and instant. And it reports a stall in INTERVENTION under a claim, and in BYPASS that
  -- ticks have resumed, at the rounds where they are so, and nothing else.
  pub run_bypass-Audited :
      (dims : ℕ) (p : BypassPump F) (rounds : List Round)
      → Returns (Audited dims p rounds) (run_bypass dims p rounds)
  unfolding run_bypass bypass_round is_stalled wanted
  run_bypass-Audited dims p [] =
      ([], sym (append_nil p.recorder), sym (append_nil p.sends), tt, sym (append_nil p.inject))
  run_bypass-Audited dims p (r ∷ rs) =
      let mode = r.status.gate_mode in
      let stalled = is_stalled r.stamp.mono r.last_tick in
      let told = reports_at r.stamp.mono mode r.status.claim_active stalled in
      Returns-bind (Advances dims r p told (from_round r p mode r.status.claim_active stalled))
        (Audited dims p (r ∷ rs)) (bypass_round dims p r) (λ q. run_bypass dims q rs)
        (supervise-Advances dims r p mode r.status.claim_active stalled)
        (λ q h.
          further dims r rs p q told (run_bypass dims q rs) refl h (run_bypass-Audited dims q rs))
