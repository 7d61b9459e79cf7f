-- ===== src/Runtime/Directives/Delivery.antt =====
-- What it is that a message of pumps.rs is delivered, and that its directive is answered once.
use waddle_sdk.Prelude.{
  ◌≡◌, ℕ, Bool, true, false, Option, none, some, List, [], ◌∷◌, ◌++◌, String, length, ltb,
}
use waddle_sdk.Session.Event.{SessionEvent}
use waddle_sdk.Runtime.Acks.{StepResult, AckGroup, Injected, answer}
use waddle_sdk.Runtime.Acks.Once.{answers, rejection_of}
use waddle_sdk.Runtime.Directives.{ServerMsg, Pump}

-- The id under which a message is to be answered: none without the negotiated flag, without an id,
-- and for the messages that are no directives.
abbrev pub answer_id : ServerMsg → Bool → Option String → Option String
answer_id (ServerMsg.heartbeat_ack changes) acks id = none
answer_id (ServerMsg.reset_progress s result) acks id = none
answer_id _ true id = id
answer_id _ false id = none

-- All outcomes of a row but the last.
abbrev pub before_last : StepResult → List StepResult → List StepResult
before_last o [] = []
before_last o (p ∷ ps) = o ∷ before_last p ps

-- What a group answers to the outcomes of its events, whatever comes later: nothing before the last
-- of them, then once.
abbrev pub AnswersOnce : String → AckGroup → List StepResult → List StepResult → Type 0
AnswersOnce id g [] later = Unit
AnswersOnce id g (o ∷ os) later =
    (answers g (before_last o os) ≡ [])
    × (answers g ((o ∷ os) ++ later) ≡ answer id (rejection_of (o ∷ os)) ∷ [])

abbrev pub address : Option String → ℕ → Option ℕ
address none at = none
address (some id) at = some at

-- These events, each under that address.
abbrev pub under : Option ℕ → List SessionEvent → List Injected
under at [] = []
under at (e ∷ es) = record { event = e; ack = at } ∷ under at es

-- Who answers for these events: nobody, or the next group, and the groups before it are the same.
abbrev pub Grouped : Option String → Pump → Pump → List SessionEvent → Type 0
Grouped none p after es = after.groups ≡ p.groups
Grouped (some id) p after [] = after.groups ≡ p.groups
Grouped (some id) p after (e ∷ es) =
    ((at : ℕ) → ltb at p.next_group ≡ true → after.groups at ≡ p.groups at)
    × ((outcomes later : List StepResult)
        → length outcomes ≡ length (e ∷ es)
        → AnswersOnce id (after.groups p.next_group) outcomes later)

-- A message that stands for these events.
abbrev pub Delivered : Option String → List SessionEvent → Pump → Pump → Type 0
Delivered id es p after =
    (after.inject ≡ p.inject ++ under (address id p.next_group) es) × Grouped id p after es
