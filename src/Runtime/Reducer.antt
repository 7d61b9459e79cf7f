-- ===== src/Runtime/Reducer.antt =====
-- The reducer, reducer.rs of waddle-core/crates/waddle-runtime/src: how it steps the session machine on
-- each event and interprets the effects. What the clock and the fresh tokens are is a sequence of
-- readings each; a reading that a branch of the source does not take is skipped.
pub mod Step
pub mod Loop
pub mod Frames
pub mod Taken
pub mod Rounds
pub mod Effects
pub mod Projection
pub mod Refusal
use waddle_sdk.Prelude.{
  ℕ, ◌+◌, Bool, true, false, ◌&&◌, not, Option, none, some, List, [], ◌∷◌, ◌++◌, is_some,
  if◌then◌else◌,
}
use waddle_sdk.Prelude.Int.{ℤ, pos, ltb_ℤ}
use waddle_sdk.Types.Time.{MonoNs, Stamp}
use waddle_sdk.Types.Chunking.{Interp}
use waddle_sdk.Types.{LeaseId, Verb, GateMode, HandoffPolicy}
use waddle_sdk.Gate.Plan.{BlendSchedule, PlanMode, GatePlan}
use waddle_sdk.Gate.Tick.{StreamIntake, stream_clear}
use waddle_sdk.Session.Emission.{EpisodeEvent}
use waddle_sdk.Session.Episode.{WindowSpec}
use waddle_sdk.Session.Effect.{TimerId, Effect}
use waddle_sdk.Session.Event.{SessionEvent, OpenRequest}
use waddle_sdk.Session.State.{SessionConfig, SessionFsm, agent_episode_noop}
use waddle_sdk.Sidecar.{SidecarBuilder}
use waddle_sdk.Sidecar.Spans.{push_event}
use waddle_sdk.Sidecar.Finish.{mark_reset_unverified, mark_post_reset_failed}
use waddle_sdk.Runtime.Acks.{
  StepResult, FinishedAck, Injected, Groups, from_event, put, record_outcome,
}
use waddle_sdk.Runtime.Timers.{Armed, arm, cancel}
use waddle_sdk.Runtime.Proprio.{ProprioSample}
use waddle_sdk.Runtime.Rows.{Row}
use waddle_sdk.Runtime.Recording.{Recording, appended}
use waddle_sdk.Runtime.Verbs.{VerbDispatch, request}
use waddle_sdk.Runtime.Mirror.{Mirror, claim_provenance, publish}

-- `ResetSpec` of session.rs; the hook is not run by the reducer.
pub data ResetSpec : Type 0 where
  hook : ResetSpec
  remote : WindowSpec → ResetSpec

abbrev pub window : Option ResetSpec → Option WindowSpec
window (some (ResetSpec.remote w)) = some w
window _ = none

-- What the reducer sends to the plane.
pub data ToPlane (F : Type 0) : Type 0 where
  event : EpisodeEvent → ToPlane F
  ack : FinishedAck → ToPlane F
  observation : MonoNs → ProprioSample F → ToPlane F

pub record Reducer (F : Type 0) : Type 0 where
  pub cfg : SessionConfig
  pub interp : Interp
  pub post_reset : Option ResetSpec
  pub has_plane : Bool
  pub clock : ℕ → Stamp
  pub reads : ℕ
  pub fresh : ℕ → LeaseId
  pub minted : ℕ
  pub fsm : SessionFsm
  pub plan : GatePlan
  pub stream : StreamIntake F
  pub verbs : VerbDispatch
  pub mirror : Mirror
  pub parts_negotiated : Bool
  pub armed : Armed
  pub self_sent : List Injected
  pub groups : Groups
  pub sent : List (ToPlane F)
  pub recording : Recording F

-- The blend that a claim's plan declares.
abbrev blend_of : HandoffPolicy → Interp → MonoNs → Option BlendSchedule
blend_of (HandoffPolicy.immediate blend_ns) interp now =
    if ltb_ℤ (pos 0) blend_ns
    then some (record { start = now; blend_ns = blend_ns; interp = interp })
    else none
blend_of _ interp now = none

-- `plan_for`, with what it reads of the reducer.
unfoldable pub plan_for : SessionConfig → Interp → SessionFsm → MonoNs → GateMode → PlanMode
unfolding claim_provenance agent_episode_noop
plan_for cfg interp s now GateMode.passthrough =
    if agent_episode_noop s
    then PlanMode.agent_episode (claim_provenance s)
    else PlanMode.passthrough
plan_for cfg interp s now GateMode.bypass = PlanMode.bypass (claim_provenance s)
plan_for cfg interp s now GateMode.intervention =
    PlanMode.claimed (claim_provenance s) (blend_of cfg.handoff interp now)
plan_for cfg interp s now GateMode.reset = PlanMode.reset (claim_provenance s)

-- A verb of the machine; it never asks for SEND.
abbrev asked : VerbDispatch → Verb → VerbDispatch
asked verbs Verb.send = verbs
asked verbs verb = request verbs verb

module _ {F : Type 0} where
  abbrev pub now_of : Reducer F → MonoNs
  now_of r = (r.clock r.reads).mono

  abbrev cleared_at : GateMode → StreamIntake F → StreamIntake F
  cleared_at GateMode.passthrough stream = stream_clear stream
  cleared_at _ stream = stream

  abbrev pub to_plane : Bool → List (ToPlane F) → ToPlane F → List (ToPlane F)
  to_plane true sent m = sent ++ m ∷ []
  to_plane false sent m = sent

  abbrev on_sidecar : (SidecarBuilder → SidecarBuilder) → Recording F → Recording F
  on_sidecar f rec = record rec { sidecar = elim rec.sidecar [ none ↦ none | some b ↦ some (f b) ] }

  unfoldable pub apply_effect : Reducer F → Effect → Reducer F
  unfolding plan_for stream_clear request arm cancel from_event push_event mark_reset_unverified
      mark_post_reset_failed
  apply_effect r (Effect.set_gate_mode mode) = record r {
    reads = r.reads + 1;
    plan = record { mode = plan_for r.cfg r.interp r.fsm (now_of r) mode; since = now_of r };
    stream = cleared_at mode r.stream;
  }
  apply_effect r (Effect.request_verb verb) = record r { verbs = asked r.verbs verb }
  apply_effect r (Effect.arm_timer id deadline) = record r { armed = arm id deadline r.armed }
  apply_effect r (Effect.cancel_timer id) = record r { armed = cancel id r.armed }
  apply_effect r (Effect.mint_lease_token pending) = record r {
    reads = r.reads + 1;
    minted = r.minted + 1;
    self_sent =
        r.self_sent
        ++ from_event (SessionEvent.lease_token_minted (r.fresh r.minted) (now_of r)) ∷ [];
  }
  apply_effect r (Effect.open_successor predecessor successor claim born_claimed mode) = record r {
    reads = r.reads + 1;
    self_sent =
        r.self_sent
        ++ from_event (
            SessionEvent.episode_open
              (record {
                id = successor;
                verification = mode;
                born_claimed = true;
                parent = some predecessor;
                post_reset = is_some r.post_reset;
                pre_window = none;
                post_window = window r.post_reset;
                agent_invite = none;
              })
              (now_of r))
          ∷ [];
  }
  apply_effect r Effect.reprime_policy = r
  apply_effect r (Effect.set_reset_unverified episode) = record r {
    recording = on_sidecar mark_reset_unverified r.recording;
  }
  apply_effect r (Effect.set_post_reset_failed episode) = record r {
    recording = on_sidecar mark_post_reset_failed r.recording;
  }
  apply_effect r (Effect.run_post_reset episode) = r
  apply_effect r (Effect.emitted e) = record r {
    recording = record (on_sidecar (λ b. push_event b e) r.recording) {
      mcap = appended r.recording.mcap (Row.event e ∷ []);
    };
    sent = to_plane r.has_plane r.sent (ToPlane.event e);
  }

  unfoldable pub apply_effects : Reducer F → List Effect → Reducer F
  unfolding apply_effect
  apply_effects r [] = r
  apply_effects r (e ∷ es) = apply_effects (apply_effect r e) es
