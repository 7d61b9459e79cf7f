-- ===== src/Runtime/Directives/Answered.antt =====
-- Which directives of pumps.rs are answered, and how often.
use waddle_sdk.Prelude.{
  ◌≡◌, refl, sym, ap, ◌∙◌, ℕ, suc, Bool, true, false, Option, none, some, List, [], ◌∷◌, ◌++◌,
  String, length, append_nil, ltb, arith, Bool-cases, inl, inr, ◌==◌,
}
use waddle_sdk.Prelude.Ordered.{leb_refl}
use waddle_sdk.Types.Time.{MonoNs}
use waddle_sdk.Types.{EpisodeId, TerminalOutcome}
use waddle_sdk.Session.Event.{SessionEvent}
use waddle_sdk.Runtime.Acks.{StepResult, AckGroup, Groups, new, put, from_event}
use waddle_sdk.Runtime.Acks.Once.{answers-new}
use waddle_sdk.Types.Actor.{ActorRef}
use waddle_sdk.Runtime.Directives.Decoded.{
  claimant, claim_events, window_events, denial_events, progress_events, decoded,
}
use waddle_sdk.Runtime.Directives.{
  AgentTaskKind, ClaimDirectiveKind, ResetWindowDirectiveKind, ResetProgressPhase, AgentTaskStatus,
  WireClaim, ResetResult, ServerMsg, Pump, ack_id, with_ack, inject_all, granted_claim,
  directive_actor, forward_claim, forward_window, reset_progressed, forward, forward_update,
  apply_grant_changes, ResetProgressStatus,
}
use waddle_sdk.Runtime.Directives.Delivery.{answer_id, before_last, AnswersOnce, under, Delivered}

abbrev last_of : StepResult → List StepResult → StepResult
last_of o [] = o
last_of o (p ∷ ps) = last_of p ps

under-with_ack : (at : Option ℕ) (es : List SessionEvent) → with_ack at es ≡ under at es
under-with_ack at [] = refl
under-with_ack at (e ∷ es) =
    ap (λ rest. record { event = e; ack = at } ∷ rest) (under-with_ack at es)

before_last_of :
    (o : StepResult) (os later : List StepResult)
    → before_last o os ++ last_of o os ∷ later ≡ (o ∷ os) ++ later
before_last_of o [] later = refl
before_last_of o (p ∷ ps) later = ap (◌∷◌ o) (before_last_of p ps later)

length-before_last : (o : StepResult) (os : List StepResult) → length (before_last o os) ≡ length os
length-before_last o [] = refl
length-before_last o (p ∷ ps) = ap suc (length-before_last p ps)

new-AnswersOnce :
    (id : String) (n : ℕ) (outcomes later : List StepResult)
    → length outcomes ≡ n
    → AnswersOnce id (new id n) outcomes later
new-AnswersOnce id n [] later h = tt
new-AnswersOnce id n (o ∷ os) later h =
    let once = answers-new id (before_last o os) (last_of o os) later in
    let whole = before_last_of o os [] ∙ append_nil (o ∷ os) in
    rw (sym h, sym (length-before_last o os)) (rw (before_last_of o os later, whole) at once)

put_below :
    (groups : Groups) (n at : ℕ) (g : AckGroup) → ltb at n ≡ true → put groups n g at ≡ groups at
put_below groups n at g h = ground arith

put_at : (groups : Groups) (at : ℕ) (g : AckGroup) → put groups at g at ≡ g
put_at groups at g = rw (leb_refl at) refl

inject_all-Delivered :
    (id : Option String) (p : Pump) (e : SessionEvent) (es : List SessionEvent)
    → Delivered id (e ∷ es) p (inject_all p id (length (e ∷ es)) (e ∷ es))
unfolding inject_all
inject_all-Delivered none p e es =
    (ap (λ row. p.inject ++ row) (under-with_ack none (e ∷ es)), refl)
inject_all-Delivered (some id) p e es = (
  ap (λ row. p.inject ++ row) (under-with_ack (some p.next_group) (e ∷ es)),
  (
    λ at h. put_below p.groups p.next_group at (new id (length (e ∷ es))) h,
    λ outcomes later h.
        rw (put_at p.groups p.next_group (new id (length (e ∷ es))))
          (new-AnswersOnce id (length (e ∷ es)) outcomes later h),
  ),
)

-- A pump that has sent no event and opened no group.
unsent :
    (id : Option String) (p after : Pump)
    → after.inject ≡ p.inject
    → after.groups ≡ p.groups
    → Delivered id [] p after
unsent none p after i g = (i ∙ sym (append_nil p.inject), g)
unsent (some id) p after i g = (i ∙ sym (append_nil p.inject), g)

claim-Delivered :
    (p : Pump) (id : Option String) (successor : EpisodeId) (at : MonoNs)
    (kind : ClaimDirectiveKind) (c : WireClaim) (actor : Option ActorRef)
    → let d = record c { actor = actor } in
      Delivered id (claim_events kind d successor at) p (forward_claim p id successor at kind d)
unfolding forward_claim claim_events claimant directive_actor
claim-Delivered p id successor at ClaimDirectiveKind.grant c none =
    inject_all-Delivered id p (granted_claim (record c { actor = none }) at)
      (SessionEvent.engage c.claim_id at ∷ [])
claim-Delivered p id successor at ClaimDirectiveKind.grant c (some a) =
    inject_all-Delivered id p
      (SessionEvent.claim_granted c.claim_id c.source_name a c.self_initiated at)
      (SessionEvent.engage c.claim_id at ∷ [])
claim-Delivered p id successor at ClaimDirectiveKind.release c actor =
    inject_all-Delivered id p (SessionEvent.release c.claim_id at) []
claim-Delivered p id successor at ClaimDirectiveKind.retake c none =
    inject_all-Delivered id p
      (SessionEvent.retake c.claim_id (directive_actor none).kind successor at) []
claim-Delivered p id successor at ClaimDirectiveKind.retake c (some a) =
    inject_all-Delivered id p (SessionEvent.retake c.claim_id a.kind successor at) []
claim-Delivered p id successor at ClaimDirectiveKind.unknown_claim c actor = unsent id p p refl refl

window-Delivered :
    (p : Pump) (id : Option String) (at : MonoNs) (kind : ResetWindowDirectiveKind) (c : WireClaim)
    (actor : Option ActorRef) (result : Option ResetResult)
    → let d = record c { actor = actor } in
      Delivered id (window_events kind d result at) p (forward_window p id at kind d result)
unfolding forward_window window_events claimant directive_actor
window-Delivered p id at ResetWindowDirectiveKind.engage c none result =
    inject_all-Delivered id p (granted_claim (record c { actor = none }) at)
      (SessionEvent.reset_window_engage c.claim_id at ∷ [])
window-Delivered p id at ResetWindowDirectiveKind.engage c (some a) result =
    inject_all-Delivered id p (granted_claim (record c { actor = some a }) at)
      (SessionEvent.reset_window_engage c.claim_id at ∷ [])
window-Delivered p id at ResetWindowDirectiveKind.complete c actor none = unsent id p p refl refl
window-Delivered p id at ResetWindowDirectiveKind.complete c actor (some (succeeded, verified)) =
    inject_all-Delivered id p (SessionEvent.reset_window_complete c.claim_id succeeded verified at)
      []
window-Delivered p id at ResetWindowDirectiveKind.cancel c actor result =
    inject_all-Delivered id p (SessionEvent.reset_window_complete c.claim_id false none at) []
window-Delivered p id at ResetWindowDirectiveKind.unknown_window c actor result =
    unsent id p p refl refl

told-Delivered :
    (id : Option String) (p : Pump) (s : AgentTaskStatus) (e : SessionEvent)
    → Delivered id (e ∷ []) p (inject_all (record p { agent_task = some s }) id 1 (e ∷ []))
unfolding inject_all
told-Delivered none p s e = inject_all-Delivered none (record p { agent_task = some s }) e []
told-Delivered (some id) p s e =
    inject_all-Delivered (some id) (record p { agent_task = some s }) e []

update-Delivered :
    (id : Option String) (p : Pump) (s : AgentTaskStatus) (at : MonoNs) (kind : AgentTaskKind)
    (active : Option EpisodeId)
    → Delivered id
        (denial_events kind active s.episode_id s.detail at)
        p
        (forward_update p id active at (record s { kind = kind }))
unfolding forward_update
update-Delivered id p s at AgentTaskKind.unspecified_task active =
    unsent id p
      (record p { agent_task = some (record s { kind = AgentTaskKind.unspecified_task }) }) refl
      refl
update-Delivered id p s at AgentTaskKind.queued active =
    unsent id p (record p { agent_task = some (record s { kind = AgentTaskKind.queued }) }) refl
      refl
update-Delivered id p s at AgentTaskKind.completed active =
    unsent id p (record p { agent_task = some (record s { kind = AgentTaskKind.completed }) }) refl
      refl
update-Delivered id p s at AgentTaskKind.denied none =
    unsent id p (record p { agent_task = some (record s { kind = AgentTaskKind.denied }) }) refl
      refl
update-Delivered id p s at AgentTaskKind.denied (some active) =
    let denied = record s { kind = AgentTaskKind.denied } in
    elim (Bool-cases (active == s.episode_id)) [
      | inl y ↦ rw y (told-Delivered id p denied (SessionEvent.agent_task_denied s.detail at))
      | inr n ↦ rw n (unsent id p (record p { agent_task = some denied }) refl refl)
    ]

progress-Delivered :
    (p : Pump) (s : ResetProgressStatus) (phase : ResetProgressPhase) (result : Option ResetResult)
    (at : MonoNs)
    → Delivered none
        (progress_events phase result at)
        p
        (reset_progressed (record p { progress = some s }) phase result at)
unfolding from_event
progress-Delivered p s ResetProgressPhase.unspecified_phase result at =
    unsent none p (record p { progress = some s }) refl refl
progress-Delivered p s ResetProgressPhase.planning result at =
    unsent none p (record p { progress = some s }) refl refl
progress-Delivered p s ResetProgressPhase.executing result at =
    unsent none p (record p { progress = some s }) refl refl
progress-Delivered p s ResetProgressPhase.verifying result at =
    unsent none p (record p { progress = some s }) refl refl
progress-Delivered p s ResetProgressPhase.done none at =
    unsent none p (record p { progress = some s }) refl refl
progress-Delivered p s ResetProgressPhase.done (some (succeeded, verified)) at = (refl, refl)

-- A message adds to the injections exactly the events that it stands for, in their order; a malformed or
-- unknown one stands for none. If it is a directive that stands for an event and has an id, and the
-- plane negotiated acks, its events share one new group: it answers nothing before the last of them has
-- an outcome, then answers under the directive's id, and never again whatever comes later; the answer
-- accepts exactly if no outcome is a rejection, and its reason is the first rejection's; the groups
-- of earlier directives are as they were. Any other message changes no group, and its events have none.
pub forward-Delivered :
    (p : Pump) (acks : Bool) (id : Option String) (active : Option EpisodeId)
    (successor : EpisodeId) (at : MonoNs) (m : ServerMsg)
    → Delivered
        (answer_id m acks id)
        (decoded active successor at m)
        p
        (forward p acks id active successor at m)
unfolding forward forward_update apply_grant_changes from_event ack_id decoded
forward-Delivered p true id active successor at (ServerMsg.claim kind none) =
    unsent id p p refl refl
forward-Delivered p true id active successor at (ServerMsg.claim kind (some c)) =
    claim-Delivered p id successor at kind c c.actor
forward-Delivered p true id active successor at (ServerMsg.episode none reason) =
    inject_all-Delivered id p (SessionEvent.terminate TerminalOutcome.abort reason at) []
forward-Delivered p true id active successor at (ServerMsg.episode (some outcome) reason) =
    inject_all-Delivered id p (SessionEvent.terminate outcome reason at) []
forward-Delivered p true id active successor at (ServerMsg.reset_window kind none result) =
    unsent id p p refl refl
forward-Delivered p true id active successor at (ServerMsg.reset_window kind (some c) result) =
    window-Delivered p id at kind c c.actor result
forward-Delivered p true id active successor at (ServerMsg.agent_update s) =
    update-Delivered id p s at s.kind active
forward-Delivered p false id active successor at (ServerMsg.claim kind none) =
    unsent none p p refl refl
forward-Delivered p false id active successor at (ServerMsg.claim kind (some c)) =
    claim-Delivered p none successor at kind c c.actor
forward-Delivered p false id active successor at (ServerMsg.episode none reason) =
    inject_all-Delivered none p (SessionEvent.terminate TerminalOutcome.abort reason at) []
forward-Delivered p false id active successor at (ServerMsg.episode (some outcome) reason) =
    inject_all-Delivered none p (SessionEvent.terminate outcome reason at) []
forward-Delivered p false id active successor at (ServerMsg.reset_window kind none result) =
    unsent none p p refl refl
forward-Delivered p false id active successor at (ServerMsg.reset_window kind (some c) result) =
    window-Delivered p none at kind c c.actor result
forward-Delivered p false id active successor at (ServerMsg.agent_update s) =
    update-Delivered none p s at s.kind active
forward-Delivered p acks id active successor at (ServerMsg.heartbeat_ack []) =
    unsent none p p refl refl
forward-Delivered p acks id active successor at (ServerMsg.heartbeat_ack (c ∷ cs)) = (refl, refl)
forward-Delivered p acks id active successor at (ServerMsg.reset_progress s result) =
    progress-Delivered p s s.phase result at
