-- ===== src/Runtime/Acks.antt =====
-- Directive acks, waddle-core/crates/waddle-runtime/src/ack.rs. A group is shared by reference among
-- the events of one directive; a reference is an address into the groups.
pub mod Once
use waddle_sdk.Prelude.{
  ℕ, zero, suc, Bool, Option, none, some, String, is_none, leb, ◌&&◌, if◌then◌else◌,
}
use waddle_sdk.Session.Event.{SessionEvent}

-- `accepted` is Rust's `Ok(())`.
pub data StepResult : Type 0 where
  accepted : StepResult
  refused : (reason : String) → StepResult

-- `remaining` is a `u32`; `rejection` is the first rejection's reason.
pub record AckGroup : Type 0 where
  pub directive_id : String
  pub remaining : ℕ
  pub rejection : Option String

pub record FinishedAck : Type 0 where
  pub directive_id : String
  pub accepted : Bool
  pub reason : String

pub record Injected : Type 0 where
  pub event : SessionEvent
  pub ack : Option ℕ

-- `From<SessionEvent>`.
unfoldable pub from_event : SessionEvent → Injected
from_event event = record { event = event; ack = none }

-- `AckGroup::new`; its assertion that there is an event is a debug build's.
unfoldable pub new : String → ℕ → AckGroup
new directive_id events = record {
  directive_id = directive_id;
  remaining = events;
  rejection = none;
}

abbrev pub or_default : Option String → String
or_default none = ""
or_default (some reason) = reason

abbrev pub first_rejection : Option String → StepResult → Option String
first_rejection (some reason) outcome = some reason
first_rejection none StepResult.accepted = none
first_rejection none (StepResult.refused reason) = some reason

abbrev pub answer : String → Option String → FinishedAck
answer directive_id rejection = record {
  directive_id = directive_id;
  accepted = is_none rejection;
  reason = or_default rejection;
}

-- What is left of a group that has taken an outcome: with no event left it answers.
abbrev pub settle : String → ℕ → Option String → AckGroup × Option FinishedAck
settle directive_id zero rejection = (
  record { directive_id = directive_id; remaining = 0; rejection = none },
  some (answer directive_id rejection),
)
settle directive_id (suc n) rejection =
    (record { directive_id = directive_id; remaining = suc n; rejection = rejection }, none)

abbrev pub take_outcome : AckGroup → ℕ → StepResult → AckGroup × Option FinishedAck
take_outcome g zero outcome = (g, none)
take_outcome g (suc n) outcome = settle g.directive_id n (first_rejection g.rejection outcome)

-- `AckGroup::record`.
unfoldable pub record_outcome : AckGroup → StepResult → AckGroup × Option FinishedAck
record_outcome g outcome = take_outcome g g.remaining outcome

-- The groups by address.
abbrev pub Groups : Type 0
Groups = ℕ → AckGroup

abbrev pub put : Groups → ℕ → AckGroup → Groups
put groups at g i = if leb i at && leb at i then g else groups i
