-- ===== src/Session/Endings.antt =====
-- The session machine of session.rs on concrete histories: claims that are refused, an episode that
-- has ended.
use waddle_sdk.Prelude.{refl, List, [], ◌∷◌, none, true, false}
use waddle_sdk.Prelude.Int.{pos}
use waddle_sdk.Types.{Verb, TerminalOutcome}
use waddle_sdk.Session.Episode.{ActiveClaim}
use waddle_sdk.Session.Event.{SessionEvent}
use waddle_sdk.Session.Effect.{TimerId}
use waddle_sdk.Session.State.{new}
use waddle_sdk.Session.Handlers.Episodes.{on_episode_open}
use waddle_sdk.Session.Handlers.Claims.{on_claim_granted}
use waddle_sdk.Session.Handlers.Leases.{on_lease_token_minted, on_estop}
use waddle_sdk.Session.Machine.{run, step, enter, finish}
use waddle_sdk.Session.Guarantees.Admission.{Answered, on_claim_granted-Answered}
use waddle_sdk.Session.Guarantees.Terminal.{IsEnded, NoneOpens, RunEnds, run-IsEnded}
use waddle_sdk.Session.Examples.{config, request, operator, reach}

abbrev opened : List SessionEvent
opened =
    SessionEvent.episode_open request (pos 0) ∷ SessionEvent.lease_token_minted "t1" (pos 1) ∷ []

abbrev stopped : List SessionEvent
stopped =
    SessionEvent.episode_open request (pos 0)
    ∷ SessionEvent.lease_token_minted "t1" (pos 1)
    ∷ SessionEvent.estop (pos 2)
    ∷ []

abbrev claim : ActiveClaim
claim = record { id = "c1"; source = "operator"; actor = operator; self_initiated = false }

on_claim_granted-Answered_example :
    Answered
      (enter config (reach opened))
      claim
      (on_claim_granted (enter config (reach opened)) claim (pos 2))
on_claim_granted-Answered_example =
    on_claim_granted-Answered (enter config (reach opened)) claim (pos 2)

stopped-IsEnded : IsEnded TerminalOutcome.abort (reach stopped)
unfolding run step new on_episode_open on_lease_token_minted on_estop finish
stopped-IsEnded = ((refl, refl), refl, refl)

abbrev late : List SessionEvent
late =
    SessionEvent.verb_result Verb.hold true none (pos 3)
    ∷ SessionEvent.timer_fired TimerId.reset_window_timeout (pos 4)
    ∷ SessionEvent.verification_result true false (pos 5)
    ∷ []

late-NoneOpens : NoneOpens late
late-NoneOpens = (λ h. h, (λ h. h, (λ h. h, tt)))

run-IsEnded_example : RunEnds TerminalOutcome.abort (run config (reach stopped) late)
run-IsEnded_example =
    run-IsEnded config (reach stopped) late TerminalOutcome.abort stopped-IsEnded late-NoneOpens
