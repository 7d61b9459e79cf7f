-- ===== src/Runtime/Bypass/Reference.antt =====
-- What the bypass pump of pumps.rs is to send, to record and to report, round by round.
use waddle_sdk.Prelude.{
  ◌≡◌, ℕ, ◌+◌, ◌%◌, ◌^◌, if◌then◌else◌, Bool, true, false, Option, none, some, List, [], ◌∷◌, ◌++◌,
}
use waddle_sdk.Outcome.{Outcome, done, rejected, panicked}
use waddle_sdk.Types.{GateMode}
use waddle_sdk.Types.Time.{MonoNs}
use waddle_sdk.Session.Event.{SessionEvent}
use waddle_sdk.Gate.Action.{OwnedAction}
use waddle_sdk.Types.Actor.{ProvenanceTag, policy_tag}
use waddle_sdk.Gate.Tick.{StreamIntake, stream_pop_due}
use waddle_sdk.Runtime.Acks.{Injected}
use waddle_sdk.Runtime.Rows.{DispatchedAction}
use waddle_sdk.Runtime.Bypass.{BypassPump, Round, SendChunk, is_stalled}

-- Whether a round may drive the robot: in BYPASS while the caller's loop is stalled, and in RESET
-- under a claim.
abbrev pub may_drive : Option GateMode → Bool → Bool → Bool
may_drive (some GateMode.bypass) claim_active stalled = stalled
may_drive (some GateMode.reset) claim_active stalled = claim_active
may_drive _ claim_active stalled = false

-- Whether a round drives the robot, and what it reports to the machine.
abbrev pub driven : Round → Bool
unfolding is_stalled
driven r = may_drive r.status.gate_mode r.status.claim_active (is_stalled r.stamp.mono r.last_tick)

abbrev pub reports_at : MonoNs → Option GateMode → Bool → Bool → List Injected
reports_at now (some GateMode.intervention) true true =
    record { event = SessionEvent.stall_detected now; ack = none } ∷ []
reports_at now (some GateMode.bypass) claim_active false =
    record { event = SessionEvent.ticks_resumed now; ack = none } ∷ []
reports_at now _ _ _ = []

abbrev pub reports : List Round → List Injected
unfolding is_stalled
reports [] = []
reports (r ∷ rs) =
    reports_at r.stamp.mono r.status.gate_mode r.status.claim_active
      (is_stalled r.stamp.mono r.last_tick)
    ++ reports rs

abbrev pub Returns {ℓ} : {A : Type ℓ} → (A → Type 0) → Outcome A → Type 0
Returns P (done a) = P a
Returns P (rejected reason) = ⊥
Returns P (panicked m) = ⊥

-- The tag of the status, or the policy's.
abbrev pub tag_of : Option ProvenanceTag → ProvenanceTag
tag_of none = policy_tag
tag_of (some tag) = tag

-- The rows of the rounds to come, from a number and a stream.
abbrev pub Onward : Type 0 → Type 0
Onward F = ℕ → StreamIntake F → List (DispatchedAction F)

module _ {F : Type 0} where
  -- A request asks for the action of a row, with everything that the row says of it.
  abbrev pub AsksFor : ℕ → DispatchedAction F → SendChunk F → Type 0
  AsksFor dims d s =
      (s.step.values ≡ d.action.values)
      × (s.step.velocity_feedforward ≡ d.action.velocity_feedforward)
      × (s.step.gripper ≡ d.action.gripper)
      × (s.step.part ≡ d.action.part)
      × (s.seq ≡ d.seq)
      × (s.provenance ≡ d.provenance)
      × (s.t_emitted_ns ≡ d.stamp.mono)
      × (s.t_obs_ns ≡ d.stamp.mono)
      × (s.dims ≡ dims)

  -- Row by row.
  abbrev pub AskFor : ℕ → List (DispatchedAction F) → List (SendChunk F) → Type 0
  AskFor dims [] [] = Unit
  AskFor dims (d ∷ ds) (s ∷ ss) = AsksFor dims d s × AskFor dims ds ss
  AskFor dims _ _ = ⊥

  -- The row of what a round finds due, with the next number, before those of the rounds after it.
  abbrev pub row_before :
      Onward F
      → Round
      → ℕ
      → Outcome (StreamIntake F × Option (OwnedAction F))
      → List (DispatchedAction F)
  row_before onward r seq (done (stream, none)) = onward seq stream
  row_before onward r seq (done (stream, some action)) =
      record {
        stamp = r.stamp;
        seq = (seq + 1) % 2 ^ 64;
        provenance = tag_of r.status.provenance;
        action = action;
      }
      ∷ onward ((seq + 1) % 2 ^ 64) stream
  row_before onward r seq _ = []

  -- The rows of a run from this stream and this number.
  unfoldable pub wanted : List Round → ℕ → StreamIntake F → List (DispatchedAction F)
  unfolding stream_pop_due
  wanted [] seq stream = []
  wanted (r ∷ rs) seq stream =
      if driven r
      then row_before (λ n s. wanted rs n s) r seq (stream_pop_due stream r.stamp.mono)
      else wanted rs seq stream

  -- What a run adds to the recorder, to the requests and to the reports.
  abbrev pub Audited : ℕ → BypassPump F → List Round → BypassPump F → Type 0
  Audited dims p rounds q =
      (sent : List (SendChunk F)) × (q.recorder ≡ p.recorder ++ wanted rounds p.seq p.stream)
      × (q.sends ≡ p.sends ++ sent)
      × AskFor dims (wanted rounds p.seq p.stream) sent
      × (q.inject ≡ p.inject ++ reports rounds)
