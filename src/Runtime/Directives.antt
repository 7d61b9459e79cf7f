-- ===== src/Runtime/Directives.antt =====
-- The plane's directives as events of the session machine: `forward_server_msg` of pumps.rs in
-- waddle-core/crates/waddle-runtime/src, with the statuses of mirror.rs that it sets. A message stands as
-- it is decoded: an actor is none where the wire has no known one, an outcome where it has no known
-- one. Chunks, chat, task, calibration, artifact and run messages are left out.
pub mod Decoded
pub mod Delivery
pub mod Answered
mod Examples
use waddle_sdk.Prelude.{
  ℕ, ◌+◌, ◌&&◌, Bool, true, false, Option, none, some, List, [], ◌∷◌, ◌++◌, String, ◌==◌,
  if◌then◌else◌,
}
use waddle_sdk.Types.Time.{MonoNs}
use waddle_sdk.Types.Actor.{ActorKind, ActorRef, of_kind}
use waddle_sdk.Types.{EpisodeId, TerminalOutcome}
use waddle_sdk.Session.Event.{SessionEvent, GrantChangeDirective}
use waddle_sdk.Runtime.Acks.{Injected, Groups, from_event, new, put}

pub data ClaimDirectiveKind : Type 0 where
  grant release retake unknown_claim : ClaimDirectiveKind

pub data ResetWindowDirectiveKind : Type 0 where
  engage complete cancel unknown_window : ResetWindowDirectiveKind

pub data AgentTaskKind : Type 0 where
  unspecified_task queued denied completed : AgentTaskKind

pub data ResetProgressPhase : Type 0 where
  unspecified_phase planning executing verifying done : ResetProgressPhase

pub record WireClaim : Type 0 where
  pub claim_id : String
  pub source_name : String
  pub actor : Option ActorRef
  pub self_initiated : Bool

-- Whether a reset succeeded, and what verified it, if anything did.
abbrev pub ResetResult : Type 0
ResetResult = Bool × Option Bool

pub record AgentTaskStatus : Type 0 where
  pub episode_id : String
  pub kind : AgentTaskKind
  pub detail : String
  pub recording_ref : String

pub record ResetProgressStatus : Type 0 where
  pub phase : ResetProgressPhase
  pub strategy : String
  pub detail : String

pub data ServerMsg : Type 0 where
  claim : ClaimDirectiveKind → Option WireClaim → ServerMsg
  episode : (outcome : Option TerminalOutcome) (reason : String) → ServerMsg
  reset_window : ResetWindowDirectiveKind → Option WireClaim → Option ResetResult → ServerMsg
  agent_update : AgentTaskStatus → ServerMsg
  heartbeat_ack : List GrantChangeDirective → ServerMsg
  reset_progress : ResetProgressStatus → Option ResetResult → ServerMsg

-- The pump's channel to the reducer, the statuses that it sets, and the next free address of a group.
pub record Pump : Type 0 where
  pub inject : List Injected
  pub groups : Groups
  pub next_group : ℕ
  pub agent_task : Option AgentTaskStatus
  pub progress : Option ResetProgressStatus

-- `directive_actor`.
unfoldable pub directive_actor : Option ActorRef → ActorRef
unfolding of_kind
directive_actor none = of_kind ActorKind.teleoperator
directive_actor (some a) = a

-- `ack_group`: the id under which a directive is answered, if it is.
unfoldable pub ack_id : Bool → Option String → Option String
ack_id true directive_id = directive_id
ack_id false directive_id = none

abbrev pub with_ack : Option ℕ → List SessionEvent → List Injected
with_ack at [] = []
with_ack at (e ∷ es) = record { event = e; ack = at } ∷ with_ack at es

-- The events of one directive, with the group of as many events, if it is answered.
unfoldable pub inject_all : Pump → Option String → ℕ → List SessionEvent → Pump
unfolding new
inject_all p none events es = record p { inject = p.inject ++ with_ack none es }
inject_all p (some id) events es = record p {
  inject = p.inject ++ with_ack (some p.next_group) es;
  groups = put p.groups p.next_group (new id events);
  next_group = p.next_group + 1;
}

abbrev pub granted_claim : WireClaim → MonoNs → SessionEvent
granted_claim c at =
    SessionEvent.claim_granted c.claim_id c.source_name (directive_actor c.actor) c.self_initiated
      at

-- A claim directive; `successor` is a fresh episode's id.
unfoldable pub forward_claim :
    Pump → Option String → EpisodeId → MonoNs → ClaimDirectiveKind → WireClaim → Pump
unfolding inject_all directive_actor
forward_claim p id successor at ClaimDirectiveKind.grant c =
    inject_all p id 2 (granted_claim c at ∷ SessionEvent.engage c.claim_id at ∷ [])
forward_claim p id successor at ClaimDirectiveKind.release c =
    inject_all p id 1 (SessionEvent.release c.claim_id at ∷ [])
forward_claim p id successor at ClaimDirectiveKind.retake c =
    inject_all p id 1
      (SessionEvent.retake c.claim_id (directive_actor c.actor).kind successor at ∷ [])
forward_claim p id successor at ClaimDirectiveKind.unknown_claim c = p

unfoldable pub forward_window :
    Pump → Option String → MonoNs → ResetWindowDirectiveKind → WireClaim → Option ResetResult → Pump
unfolding inject_all directive_actor
forward_window p id at ResetWindowDirectiveKind.engage c result =
    inject_all p id 2 (granted_claim c at ∷ SessionEvent.reset_window_engage c.claim_id at ∷ [])
forward_window p id at ResetWindowDirectiveKind.complete c none = p
forward_window p id at ResetWindowDirectiveKind.complete c (some (succeeded, verified)) =
    inject_all p id 1 (SessionEvent.reset_window_complete c.claim_id succeeded verified at ∷ [])
forward_window p id at ResetWindowDirectiveKind.cancel c result =
    inject_all p id 1 (SessionEvent.reset_window_complete c.claim_id false none at ∷ [])
forward_window p id at ResetWindowDirectiveKind.unknown_window c result = p

abbrev pub or_abort : Option TerminalOutcome → TerminalOutcome
or_abort none = TerminalOutcome.abort
or_abort (some o) = o

abbrev pub is_denied : AgentTaskKind → Bool
is_denied AgentTaskKind.denied = true
is_denied _ = false

abbrev pub addresses : Option EpisodeId → String → Bool
addresses none id = false
addresses (some active) id = active == id

-- An agent task update; a denial of the active episode is an event, too.
unfoldable pub forward_update :
    Pump → Option String → Option EpisodeId → MonoNs → AgentTaskStatus → Pump
unfolding inject_all
forward_update p id active at s =
    let told = record p { agent_task = some s } in
    let dispatched = inject_all told id 1 (SessionEvent.agent_task_denied s.detail at ∷ []) in
    if is_denied s.kind && addresses active s.episode_id then dispatched else told

unfoldable pub apply_grant_changes : Pump → List GrantChangeDirective → MonoNs → Pump
unfolding from_event
apply_grant_changes p [] at = p
apply_grant_changes p (c ∷ cs) at = record p {
  inject = p.inject ++ from_event (SessionEvent.heartbeat_ack (c ∷ cs) at) ∷ [];
}

-- A finished reset that reports a result completes the reset pipeline.
abbrev pub reset_progressed : Pump → ResetProgressPhase → Option ResetResult → MonoNs → Pump
reset_progressed p ResetProgressPhase.done (some (succeeded, verified)) at = record p {
  inject = p.inject ++ from_event (SessionEvent.reset_result succeeded verified at) ∷ [];
}
reset_progressed p _ _ at = p

-- `forward_server_msg`, with the episode that the status shows as active.
unfoldable pub forward :
    Pump → Bool → Option String → Option EpisodeId → EpisodeId → MonoNs → ServerMsg → Pump
unfolding ack_id forward_claim forward_window forward_update apply_grant_changes from_event
forward p acks id active successor at (ServerMsg.claim kind none) = p
forward p acks id active successor at (ServerMsg.claim kind (some c)) =
    forward_claim p (ack_id acks id) successor at kind c
forward p acks id active successor at (ServerMsg.episode outcome reason) =
    inject_all p (ack_id acks id) 1 (SessionEvent.terminate (or_abort outcome) reason at ∷ [])
forward p acks id active successor at (ServerMsg.reset_window kind none result) = p
forward p acks id active successor at (ServerMsg.reset_window kind (some c) result) =
    forward_window p (ack_id acks id) at kind c result
forward p acks id active successor at (ServerMsg.agent_update s) =
    forward_update p (ack_id acks id) active at s
forward p acks id active successor at (ServerMsg.heartbeat_ack changes) =
    apply_grant_changes p changes at
forward p acks id active successor at (ServerMsg.reset_progress s result) =
    reset_progressed (record p { progress = some s }) s.phase result at
