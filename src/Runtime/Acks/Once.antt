-- ===== src/Runtime/Acks/Once.antt =====
-- How often a group of ack.rs answers, and with what.
use waddle_sdk.Prelude.{
  ◌≡◌, refl, sym, ℕ, suc, Option, none, some, List, [], ◌∷◌, ◌++◌, String, length,
}
use waddle_sdk.Runtime.Acks.{
  StepResult, AckGroup, FinishedAck, new, answer, first_rejection, record_outcome,
}

abbrev kept : Option FinishedAck → List FinishedAck → List FinishedAck
kept none acks = acks
kept (some ack) acks = ack ∷ acks

-- What a group answers to a row of outcomes.
unfoldable pub answers : AckGroup → List StepResult → List FinishedAck
unfolding record_outcome
answers g [] = []
answers g (outcome ∷ outcomes) =
    let (next, ack) = record_outcome g outcome in kept ack (answers next outcomes)

-- The first rejection of a row.
abbrev pub rejection_of : List StepResult → Option String
rejection_of [] = none
rejection_of (StepResult.accepted ∷ outcomes) = rejection_of outcomes
rejection_of (StepResult.refused reason ∷ outcomes) = some reason

abbrev later_rejection : Option String → List StepResult → Option String
later_rejection rejection [] = rejection
later_rejection rejection (outcome ∷ outcomes) =
    later_rejection (first_rejection rejection outcome) outcomes

later_rejection_kept :
    (reason : String) (outcomes : List StepResult)
    → later_rejection (some reason) outcomes ≡ some reason
later_rejection_kept reason [] = refl
later_rejection_kept reason (outcome ∷ outcomes) = later_rejection_kept reason outcomes

later_rejection_begun :
    (outcomes : List StepResult) → later_rejection none outcomes ≡ rejection_of outcomes
later_rejection_begun [] = refl
later_rejection_begun (StepResult.accepted ∷ outcomes) = later_rejection_begun outcomes
later_rejection_begun (StepResult.refused reason ∷ outcomes) = later_rejection_kept reason outcomes

abbrev finished : String → AckGroup
finished id = record { directive_id = id; remaining = 0; rejection = none }

answers_finished : (id : String) (outcomes : List StepResult) → answers (finished id) outcomes ≡ []
unfolding answers record_outcome
answers_finished id [] = refl
answers_finished id (outcome ∷ outcomes) = answers_finished id outcomes

abbrev waiting : String → ℕ → Option String → AckGroup
waiting id n rejection = record { directive_id = id; remaining = suc n; rejection = rejection }

answers_until_last :
    (id : String) (rejection : Option String) (front : List StepResult) (last : StepResult)
    (later : List StepResult)
    → (answers (waiting id (length front) rejection) front ≡ [])
      × (answers (waiting id (length front) rejection) (front ++ last ∷ later)
          ≡ answer id (first_rejection (later_rejection rejection front) last) ∷ [])
unfolding answers record_outcome
answers_until_last id rejection [] last later = (refl, rw (answers_finished id later) refl)
answers_until_last id rejection (outcome ∷ front) last later =
    answers_until_last id (first_rejection rejection outcome) front last later

later_rejection-append :
    (rejection : Option String) (front : List StepResult) (last : StepResult)
    → first_rejection (later_rejection rejection front) last
      ≡ later_rejection rejection (front ++ last ∷ [])
later_rejection-append rejection [] last = refl
later_rejection-append rejection (outcome ∷ front) last =
    later_rejection-append (first_rejection rejection outcome) front last

-- A directive that decodes into at least one event is answered exactly once: its group answers
-- nothing before the last of its events has an outcome, then answers, under the directive's id, and
-- never again whatever comes later. The answer accepts exactly if no event was rejected, and its
-- reason is that of the first rejection.
pub answers-new :
    (id : String) (front : List StepResult) (last : StepResult) (later : List StepResult)
    → (answers (new id (suc (length front))) front ≡ [])
      × (answers (new id (suc (length front))) (front ++ last ∷ later)
          ≡ answer id (rejection_of (front ++ last ∷ [])) ∷ [])
unfolding new
answers-new id front last later =
    rw
      (
        sym (later_rejection_begun (front ++ last ∷ [])),
        sym (later_rejection-append none front last),
      )
      (answers_until_last id none front last later)
