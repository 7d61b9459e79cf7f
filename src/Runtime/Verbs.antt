-- ===== src/Runtime/Verbs.antt =====
-- The verb dispatch, waddle-core/crates/waddle-runtime/src/verbs.rs: what it is asked for, and what a
-- round of its thread executes. What a registered callable answers is an argument; the chunk of a
-- SEND request is left out, and so are the wait for a request and the shutdown.
use waddle_sdk.Prelude.{
  Bool, true, false, not, Option, none, some, List, [], ◌∷◌, ◌++◌, String, length, ltb,
  if◌then◌else◌,
}
use waddle_sdk.Prelude.Int.{ℤ}
use waddle_sdk.Prelude.Recent.{drop}
use waddle_sdk.Types.Time.{MonoNs}
use waddle_sdk.Types.Wrapping.{sub_i64}
use waddle_sdk.Types.{Verb}

abbrev pub VerbRequest : Type 0
VerbRequest = Verb

pub data VerbResult : Type 0 where
  succeeded verb_panicked : VerbResult
  not_registered : Verb → VerbResult
  failed : String → VerbResult

-- Which verbs the integrator registered.
pub record ControlRegistry : Type 0 where
  pub send : Bool
  pub hold : Bool
  pub resume : Bool
  pub home : Bool
  pub estop : Bool

pub record VerbOutcome : Type 0 where
  pub verb : Verb
  pub result : VerbResult
  pub latency_ns : ℤ
  pub at : MonoNs

-- The outcomes are a channel, and the samples those of `DispatchStats`.
pub record VerbDispatch : Type 0 where
  pub queue : List VerbRequest
  pub estop_flag : Bool
  pub priority_hold_flag : Bool
  pub outcomes : List VerbOutcome
  pub samples : List ℤ

abbrev pub no_request : VerbDispatch
no_request = record {
  queue = [];
  estop_flag = false;
  priority_hold_flag = false;
  outcomes = [];
  samples = [];
}

-- `VerbDispatch::request`.
unfoldable pub request : VerbDispatch → VerbRequest → VerbDispatch
request d Verb.estop = record d { estop_flag = true }
request d verb = record d { queue = d.queue ++ verb ∷ [] }

unfoldable pub request_priority_hold : VerbDispatch → VerbDispatch
request_priority_hold d = record d { priority_hold_flag = true }

-- `DispatchStats::record`: the newest 256 latencies.
unfoldable pub record_latency : List ℤ → ℤ → List ℤ
record_latency samples latency =
    (if not (ltb (length samples) 256) then drop 1 samples else samples) ++ latency ∷ []

abbrev pub is_registered : ControlRegistry → Verb → Bool
is_registered r Verb.send = r.send
is_registered r Verb.hold = r.hold
is_registered r Verb.resume = r.resume
is_registered r Verb.home = r.home
is_registered r Verb.estop = r.estop

-- A call, as one round sees it: the clock before and after it, and what the callable answers.
pub record Executing : Type 0 where
  pub started : MonoNs
  pub finished : MonoNs
  pub answer : VerbResult

unfoldable pub execute : ControlRegistry → Executing → VerbDispatch → VerbRequest → VerbDispatch
unfolding record_latency sub_i64
execute registry call d verb =
    let latency = sub_i64 call.finished call.started in
    record d {
      samples = record_latency d.samples latency;
      outcomes =
          d.outcomes
          ++ record {
            verb = verb;
            result =
                if is_registered registry verb then call.answer else VerbResult.not_registered verb;
            latency_ns = latency;
            at = call.finished;
          }
            ∷ [];
    }

abbrev pub dequeue : VerbDispatch → List VerbRequest → VerbDispatch × Option VerbRequest
dequeue d [] = (d, none)
dequeue d (verb ∷ queue) = (record d { queue = queue }, some verb)

abbrev pub hold_or_dequeue : VerbDispatch → Bool → VerbDispatch × Option VerbRequest
hold_or_dequeue d true = (record d { priority_hold_flag = false }, some Verb.hold)
hold_or_dequeue d false = dequeue d d.queue

abbrev pub estop_or_other : VerbDispatch → Bool → VerbDispatch × Option VerbRequest
estop_or_other d true = (record d { estop_flag = false }, some Verb.estop)
estop_or_other d false = hold_or_dequeue d d.priority_hold_flag

abbrev executed : ControlRegistry → Executing → VerbDispatch → Option VerbRequest → VerbDispatch
executed registry call d none = d
executed registry call d (some verb) = execute registry call d verb

-- A round of `dispatch_loop`: an emergency stop first, then a priority hold, then the queue.
unfoldable pub dispatch_round : ControlRegistry → Executing → VerbDispatch → VerbDispatch
unfolding execute
dispatch_round registry call d =
    let (next, verb) = estop_or_other d d.estop_flag in executed registry call next verb
