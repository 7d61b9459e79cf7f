-- ===== src/Session/Examples.antt =====
-- The session machine of session.rs on concrete histories: an operator's takeover, a stop in
-- POST_RESET, a partition.
use waddle_sdk.Prelude.{◌≡◌, Bool, true, false, refl, none, some, List, [], ◌∷◌, is_none}
use waddle_sdk.Prelude.Int.{pos}
use waddle_sdk.Outcome.{Outcome, done, rejected, panicked}
use waddle_sdk.Types.{Verb, Grant, GateMode, LeaseEnforcement, HandoffPolicy, ResetVerificationMode}
use waddle_sdk.Types.Actor.{ActorKind, ActorRef}
use waddle_sdk.Lease.{LeaseState}
use waddle_sdk.Lease
use waddle_sdk.Lease.Authority.{IsDenied}
use waddle_sdk.GrantHealth.{GrantHealthEntry, ProxySample}
use waddle_sdk.Session.Effect.{LeaseOpKind, AfterLease, PendingLeaseOp}
use waddle_sdk.Session.Event.{SessionEvent, OpenRequest}
use waddle_sdk.Session.State.{SessionConfig, SessionFsm, new, gate_plan_inputs}
use waddle_sdk.Session.Phases.{is_settle, is_active as is_active_episode}
use waddle_sdk.Session.Context.{Ctx}
use waddle_sdk.Session.Handlers.Episodes.{on_episode_open, on_reset_result, on_start}
use waddle_sdk.Session.Handlers.Claims.{on_claim_granted}
use waddle_sdk.Session.Handlers.Takeover.{on_engage, on_verb_result}
use waddle_sdk.Session.Handlers.Leases.{lease_cmd, on_estop, on_lease_token_minted}
use waddle_sdk.Session.Handlers.Plane.{
  partition_all, restore_all, partitioned_verbs, restored_verbs, on_proxy_signals,
}
use waddle_sdk.Session.Machine.{run, step, enter, finish, last_mode, carries, same_inputs}
use waddle_sdk.Session.Safety.Invariant.{Inv, HeldFor}
use waddle_sdk.Session.Safety.Steps.{TimelyRun, NotPanicked, StepKeeps, run-NotPanicked, step-Inv}
use waddle_sdk.Session.Safety.Reached.{settle-HeldFor, answer_moves_lease, reached-Inv}
use waddle_sdk.Session.Safety.Stop.{Stops, on_estop-Stops}
use waddle_sdk.Session.Guarantees.GatePlan.{finish_plan}
use waddle_sdk.Session.Guarantees.Partition.{
  Unpartitioned, Demotes, taken_verbs, restore_all-partition_all,
}
use waddle_sdk.Session.Guarantees.Freeze.{GrantsKept, on_proxy_signals_frozen}

abbrev send_grant : Grant
send_grant = record {
  verb = Verb.send;
  declared_latency_bound_ns = some (pos 50);
  hardware = false;
}

abbrev pub config : SessionConfig
config = record {
  loop_client = "loop";
  enforcement = LeaseEnforcement.enforced;
  handoff = HandoffPolicy.hold_first;
  grants = send_grant ∷ [];
  space_contains_delta = false;
  clutch_source = "clutch";
  clutch_actor = ActorKind.site_operator;
  heartbeat_timeout_ns = pos 1000;
  engage_timeout_ns = pos 500;
  demote_after = 3;
  promote_after = 3;
  good_band = λ b. b;
}

abbrev pub request : OpenRequest
request = record {
  id = "e1";
  verification = ResetVerificationMode.blocking;
  born_claimed = false;
  parent = none;
  post_reset = true;
  pre_window = none;
  post_window = none;
  agent_invite = none;
}

abbrev pub operator : ActorRef
operator = record { kind = ActorKind.teleoperator; id = "op"; display_name = "Op" }

abbrev pub takeover_asked : List SessionEvent
takeover_asked =
    SessionEvent.episode_open request (pos 0)
    ∷ SessionEvent.lease_token_minted "t1" (pos 1)
    ∷ SessionEvent.reset_result true (some true) (pos 2)
    ∷ SessionEvent.start (pos 3)
    ∷ SessionEvent.claim_granted "c1" "operator" operator false (pos 4)
    ∷ SessionEvent.engage "c1" (pos 5)
    ∷ SessionEvent.verb_result Verb.hold true none (pos 6)
    ∷ []

abbrev takeover : List SessionEvent
takeover =
    SessionEvent.episode_open request (pos 0)
    ∷ SessionEvent.lease_token_minted "t1" (pos 1)
    ∷ SessionEvent.reset_result true (some true) (pos 2)
    ∷ SessionEvent.start (pos 3)
    ∷ SessionEvent.claim_granted "c1" "operator" operator false (pos 4)
    ∷ SessionEvent.engage "c1" (pos 5)
    ∷ SessionEvent.verb_result Verb.hold true none (pos 6)
    ∷ SessionEvent.lease_token_minted "t2" (pos 7)
    ∷ []

-- The state of a history that is not refused.
abbrev state_of : Outcome SessionFsm → SessionFsm
state_of (done s) = s
state_of _ = new config

abbrev is_done : Outcome SessionFsm → Bool
is_done (done s) = true
is_done _ = false

returned : (r : Outcome SessionFsm) → is_done r ≡ true → r ≡ done (state_of r)
returned (done s) h = refl
returned (rejected reason) h = cc
returned (panicked m) h = cc

abbrev pub reach : List SessionEvent → SessionFsm
reach events = state_of (run config (new config) events)

takeover_timely : TimelyRun config (new config) takeover
unfolding TimelyRun step new on_episode_open on_lease_token_minted finish on_reset_result on_start
    on_claim_granted on_engage on_verb_result
takeover_timely = (tt, (tt, (tt, (tt, (tt, (tt, (tt, (tt, tt))))))))

asked_timely : TimelyRun config (new config) takeover_asked
unfolding TimelyRun step new on_episode_open on_lease_token_minted finish on_reset_result on_start
    on_claim_granted on_engage on_verb_result
asked_timely = (tt, (tt, (tt, (tt, (tt, (tt, (tt, tt)))))))

takeover-is_done : is_done (run config (new config) takeover) ≡ true
unfolding run step new on_episode_open on_lease_token_minted finish on_reset_result on_start
    on_claim_granted on_engage on_verb_result
takeover-is_done = refl

takeover_returns : run config (new config) takeover ≡ done (reach takeover)
takeover_returns = returned (run config (new config) takeover) takeover-is_done

asked-is_done : is_done (run config (new config) takeover_asked) ≡ true
unfolding run step new on_episode_open on_lease_token_minted finish on_reset_result on_start
    on_claim_granted on_engage on_verb_result
asked-is_done = refl

asked_returns : run config (new config) takeover_asked ≡ done (reach takeover_asked)
asked_returns = returned (run config (new config) takeover_asked) asked-is_done

takeover_settles : is_settle (reach takeover).episode ≡ true
unfolding run step new on_episode_open on_lease_token_minted finish on_reset_result on_start
    on_claim_granted on_engage on_verb_result
takeover_settles = refl

takeover_lease : (reach takeover).lease ≡ LeaseState.held "t2" "operator"
unfolding run step new on_episode_open on_lease_token_minted finish on_reset_result on_start
    on_claim_granted on_engage on_verb_result
takeover_lease = refl

run-NotPanicked_example : NotPanicked (run config (new config) takeover)
run-NotPanicked_example = run-NotPanicked config takeover takeover_timely

settle-HeldFor_example :
    HeldFor (reach takeover).lease (reach takeover).claim
    × (is_none (reach takeover).pending_lease ≡ true)
settle-HeldFor_example =
    settle-HeldFor config takeover (reach takeover) takeover_timely takeover_returns
      takeover_settles

abbrev handoff : PendingLeaseOp
handoff = record { op = LeaseOpKind.handoff "t1" "operator"; next = AfterLease.engage_complete }

asked_pending : (reach takeover_asked).pending_lease ≡ some handoff
unfolding run step new on_episode_open on_lease_token_minted finish on_reset_result on_start
    on_claim_granted on_engage on_verb_result
asked_pending = refl

answer_moves_lease_example :
    (¬ IsDenied (Lease.step (reach takeover_asked).lease (lease_cmd handoff.op "t2")).1)
    × ((Lease.step (reach takeover_asked).lease (lease_cmd handoff.op "t2")).0
        ≡ LeaseState.held "t2" "operator")
answer_moves_lease_example =
    answer_moves_lease config takeover_asked (reach takeover_asked) handoff "t2" asked_timely
      asked_returns asked_pending

takeover-Inv : Inv (reach takeover)
takeover-Inv = reached-Inv config takeover (reach takeover) takeover_timely takeover_returns

step-Inv_example : StepKeeps (step config (reach takeover) (SessionEvent.release "c1" (pos 8)))
step-Inv_example =
    step-Inv config (reach takeover) (SessionEvent.release "c1" (pos 8)) takeover-Inv tt

on_estop-Stops_example :
    Stops (enter config (reach takeover)) (on_estop (enter config (reach takeover)) (pos 8))
unfolding enter
on_estop-Stops_example = on_estop-Stops (enter config (reach takeover)) (pos 8) takeover-Inv

-- The episode has engaged its agent, and the handler has not touched the gate.
abbrev engaged_gate : Ctx
engaged_gate = record {
  cfg = config;
  s = record (new config) { gate_mode = GateMode.intervention };
  effects = [];
  plan_inputs_at_entry = (GateMode.passthrough, false);
}

finish_plan_example :
    ((finish engaged_gate).next ≡ engaged_gate.s)
    × (same_inputs (gate_plan_inputs engaged_gate.s) (GateMode.passthrough, false) ≡ false
        → carries (last_mode (finish engaged_gate).effects) (finish engaged_gate).next.gate_mode
          ≡ true)
    × (same_inputs (gate_plan_inputs engaged_gate.s) (GateMode.passthrough, false) ≡ true
        → (finish engaged_gate).effects ≡ [])
finish_plan_example = finish_plan engaged_gate

abbrev grants : List GrantHealthEntry
grants = (new config).grants

grants-Unpartitioned : Unpartitioned grants
unfolding new
grants-Unpartitioned = (refl, tt)

restore_all-partition_all_example :
    Demotes grants (partition_all grants)
    × (partitioned_verbs grants ≡ taken_verbs grants)
    × (restore_all (partition_all grants) ≡ grants)
    × (restored_verbs (partition_all grants) ≡ partitioned_verbs grants)
restore_all-partition_all_example = restore_all-partition_all grants grants-Unpartitioned

send_partitioned : partitioned_verbs grants ≡ Verb.send ∷ []
unfolding partitioned_verbs new
send_partitioned = refl

abbrev slow : ProxySample
slow = record {
  control_rtt_ns = pos 90;
  gate_tick_p95_ns = pos 80;
  callback_dispatch_p95_ns = pos 10;
}

takeover_active : is_active_episode (reach takeover).episode ≡ true
unfolding run step new on_episode_open on_lease_token_minted finish on_reset_result on_start
    on_claim_granted on_engage on_verb_result
takeover_active = refl

on_proxy_signals_frozen_example :
    GrantsKept
      (enter config (reach takeover))
      (on_proxy_signals (enter config (reach takeover)) slow (pos 8))
unfolding enter
on_proxy_signals_frozen_example =
    on_proxy_signals_frozen (enter config (reach takeover)) slow (pos 8) takeover_active
