-- ===== src/Runtime/Examples.antt =====
-- The reducer of waddle-core/crates/waddle-runtime/src on concrete events: an operator's takeover is
-- answered with its lease token, a directive of two events is refused, timers are due.
use waddle_sdk.Prelude.{◌≡◌, refl, Bool, true, false, none, some, List, [], ◌∷◌, ◌++◌}
use waddle_sdk.Prelude.Int.{ℤ, pos}
use waddle_sdk.Prelude.Float.Samples.{thousandths, coarse}
use waddle_sdk.Outcome.{Outcome, done, rejected, panicked}
use waddle_sdk.Types.Chunking.{ReplanPolicy, Interp}
use waddle_sdk.Gate.Jitter.{new as new_buffer}
use waddle_sdk.Gate.Plan.{PlanMode}
use waddle_sdk.Gate.Stats.{new as new_stats}
use waddle_sdk.Gate.Tick.{Gate, Call}
use waddle_sdk.Actions.Space.{SpaceSpec, ActionSpace}
use waddle_sdk.Session.Effect.{TimerId}
use waddle_sdk.Session.Event.{SessionEvent}
use waddle_sdk.Session.State.{SessionFsm, Step as Stepped, new as new_session}
use waddle_sdk.Session.Handlers.Episodes.{on_episode_open, on_reset_result, on_start}
use waddle_sdk.Session.Handlers.Claims.{on_claim_granted}
use waddle_sdk.Session.Handlers.Takeover.{on_engage, on_verb_result}
use waddle_sdk.Session.Handlers.Leases.{on_lease_token_minted}
use waddle_sdk.Session.Machine.{step, run, finish, last_mode, carries}
use waddle_sdk.Session.Examples.{config, request, reach, takeover_asked}
use waddle_sdk.Sidecar.{new as new_sidecar}
use waddle_sdk.Runtime.Acks.{StepResult, Injected, Groups, new}
use waddle_sdk.Runtime.Acks.Once.{answers}
use waddle_sdk.Runtime.Timers.{Armed}
use waddle_sdk.Runtime.Timers.Table.{AtMostOnce}
use waddle_sdk.Runtime.Recording.{Recording}
use waddle_sdk.Runtime.Verbs.{no_request}
use waddle_sdk.Runtime.Mirror.{Status}
use waddle_sdk.Runtime.Reducer.{Reducer}
use waddle_sdk.Runtime.Reducer.Step.{before_step}
use waddle_sdk.Runtime.Reducer.Rounds.{FiresDue, round-FiresDue}
use waddle_sdk.Runtime.Reducer.Refusal.{Refused, step_and_apply-Refused}
use waddle_sdk.Runtime.Reducer.Projection.{TakesHold, step_and_apply-TakesHold}

abbrev two : List StepResult
two = StepResult.accepted ∷ StepResult.refused "no" ∷ []

answered_once :
    answers (new "d" 2) (two ++ two)
    ≡ record { directive_id = "d"; accepted = false; reason = "no" } ∷ []
unfolding answers new
answered_once = refl

abbrev blank : Status
blank = record {
  episode_id = none;
  episode_state = none;
  gate_mode = none;
  claim_active = false;
  active_claim_id = none;
  claim_generation = 0;
  provenance = none;
  outcome = none;
  pinned_outcome = none;
  post_reset_failed = false;
  agent_invited = false;
  agent_engaged = false;
  agent_invite_aborted = false;
  plane_connected = true;
}

abbrev space : ActionSpace ℤ
space =
    ActionSpace.action_space (SpaceSpec.base_twist "base" none none) (pos 30)
      (record { horizon_steps = 1; replan = ReplanPolicy.immediate; interp = Interp.hold }) none

abbrev recording : Recording ℤ
recording = record {
  dir = true;
  creates = λ id. true;
  is_finite = λ x. true;
  before = λ a b. false;
  space = space;
  record_slot = none;
  records_rx = none;
  dispatch_rx = [];
  proprio_rx = [];
  obs_slot = none;
  latest_joints = λ part. none;
  latest = [];
  sidecar = none;
  mcap = none;
  sidecars = [];
  files = [];
}

-- One directive of two events, of which the first was taken.
abbrev groups : Groups
groups = λ at. record { directive_id = "d7"; remaining = 1; rejection = none }

abbrev reducer : SessionFsm → Armed → Reducer ℤ
reducer fsm armed = record {
  cfg = config;
  interp = Interp.linear;
  post_reset = none;
  has_plane = true;
  clock = λ n. record { mono = pos 100; epoch = pos 1100 };
  reads = 0;
  fresh = λ n. "token";
  minted = 0;
  fsm = fsm;
  plan = record { mode = PlanMode.passthrough; since = pos 0 };
  stream = record { rx = []; jitter = new_buffer (pos 20) ReplanPolicy.immediate };
  verbs = no_request;
  mirror = record { status = blank; claim_window = none; claim_generation = 0 };
  parts_negotiated = false;
  armed = armed;
  self_sent = [];
  groups = groups;
  sent = [];
  recording = recording;
}

abbrev table : Armed
table =
    (TimerId.engage_timeout, pos 90)
    ∷ (TimerId.heartbeat_stale, pos 500)
    ∷ (TimerId.chunk_boundary_cap, pos 40)
    ∷ []

table-AtMostOnce : AtMostOnce table
table-AtMostOnce = ((refl, (refl, tt)), ((refl, tt), (tt, tt)))

round-FiresDue_example : FiresDue (reducer (new_session config) table) none
round-FiresDue_example = round-FiresDue (reducer (new_session config) table) none table-AtMostOnce

abbrev early_start : Injected
early_start = record { event = SessionEvent.start (pos 9); ack = some 3 }

step_refused :
    step config (new_session config) (SessionEvent.start (pos 9)) ≡ rejected "start outside READY"
unfolding step new_session on_start
step_refused = refl

step_and_apply-Refused_example :
    Refused (reducer (new_session config) []) early_start "start outside READY"
step_and_apply-Refused_example =
    step_and_apply-Refused (reducer (new_session config) []) early_start "start outside READY"
      step_refused

-- The lease token that the takeover waits for.
abbrev token : Injected
token = record { event = SessionEvent.lease_token_minted "t2" (pos 7); ack = none }

abbrev awaiting : Reducer ℤ
awaiting = reducer (reach takeover_asked) []

abbrev step_of : Outcome Stepped → Stepped
step_of (done s) = s
step_of _ = record { next = new_session config; effects = [] }

abbrev is_done : Outcome Stepped → Bool
is_done (done s) = true
is_done _ = false

returned : (o : Outcome Stepped) → is_done o ≡ true → o ≡ done (step_of o)
returned (done s) h = refl
returned (rejected reason) h = cc
returned (panicked why) h = cc

abbrev taken : Stepped
taken = step_of (step config (reach takeover_asked) token.event)

taken-is_done : is_done (step config (reach takeover_asked) token.event) ≡ true
unfolding run step new_session on_episode_open on_lease_token_minted finish on_reset_result on_start
    on_claim_granted on_engage on_verb_result
taken-is_done = refl

taken_carries : carries (last_mode taken.effects) taken.next.gate_mode ≡ true
unfolding run step new_session on_episode_open on_lease_token_minted finish on_reset_result on_start
    on_claim_granted on_engage on_verb_result last_mode
taken_carries = refl

abbrev gate : Gate ℤ
gate = record {
  stream = awaiting.stream;
  stats = new_stats;
  seq = 0;
  last_action = none;
  records_dropped = 0;
}

abbrev call : Call ℤ
call = record {
  stamp = record { mono = pos 140; epoch = pos 1140 };
  mode = PlanMode.held;
  has_room = true;
  values = pos 1 ∷ pos 2 ∷ [];
  gripper = none;
  obs = none;
  part = none;
}

step_and_apply-TakesHold_example : TakesHold thousandths coarse awaiting token taken.next gate call
step_and_apply-TakesHold_example =
    step_and_apply-TakesHold thousandths coarse awaiting token taken gate call
      (returned (step config (reach takeover_asked) token.event) taken-is_done) taken_carries refl

-- A second episode is asked for while one is active: the machine refuses, and the file of the
-- active episode is closed all the same.
abbrev second_open : SessionEvent
second_open = SessionEvent.episode_open (record request { id = "e2" }) (pos 8)

second_refused :
    step config (reach takeover_asked) second_open ≡ rejected "one active episode per session (N18)"
unfolding run step new_session on_episode_open on_lease_token_minted finish on_reset_result on_start
    on_claim_granted on_engage on_verb_result
second_refused = refl

abbrev recorded : Reducer ℤ
recorded = record awaiting {
  recording = record recording { mcap = some []; sidecar = some (new_sidecar "e1") };
}

refused_open_closes : (before_step recorded second_open).recording.files ≡ [] ∷ []
unfolding before_step new_sidecar run on_episode_open new_session on_lease_token_minted finish
    on_reset_result on_start on_claim_granted on_engage on_verb_result
refused_open_closes = refl
