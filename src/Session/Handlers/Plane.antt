-- ===== src/Session/Handlers/Plane.antt =====
-- Handlers of session.rs's `step` for grant liveness (FSM.md §7) and partitions (§8).
use waddle_sdk.Prelude.{
  Bool, true, false, ◌&&◌, Option, none, some, List, [], ◌∷◌, map, String, if◌then◌else◌,
}
use waddle_sdk.Outcome.{Outcome, done}
use waddle_sdk.Types.Time.{MonoNs, saturating_add}
use waddle_sdk.Types.{EpisodeId, Verb, same_verb, GrantStatus, is_active}
use waddle_sdk.GrantHealth.{ProxySample, HealthEvent, GrantHealthEntry, observe}
use waddle_sdk.Session.Emission.{Body, EpisodeEvent, event_of}
use waddle_sdk.Session.Effect.{TimerId, Effect}
use waddle_sdk.Session.Event.{GrantChangeDirective}
use waddle_sdk.Session.State.{SessionConfig}
use waddle_sdk.Session.Phases.{is_active as has_active_episode}
use waddle_sdk.Session.Context.{Ctx, push, emits, emit, episode_id, apply_pending_demotions}

-- One `grant_change` emission for each of the verbs.
unfoldable pub grant_changes :
    MonoNs → Option EpisodeId → GrantStatus → GrantStatus → String → List Verb → List EpisodeEvent
unfolding event_of
grant_changes at ep from to reason verbs =
    map (λ verb. event_of at ep (Body.grant verb from to reason at)) verbs

abbrev is_repromoted : Option HealthEvent → Bool
is_repromoted (some HealthEvent.repromoted) = true
is_repromoted _ = false

unfoldable pub observe_all :
    SessionConfig → ProxySample → List GrantHealthEntry → List GrantHealthEntry
unfolding observe
observe_all cfg sample [] = []
observe_all cfg sample (g ∷ gs) =
    (observe g sample cfg.demote_after cfg.promote_after cfg.good_band).0
    ∷ observe_all cfg sample gs

unfoldable pub repromoted_verbs : SessionConfig → ProxySample → List GrantHealthEntry → List Verb
unfolding observe
repromoted_verbs cfg sample [] = []
repromoted_verbs cfg sample (g ∷ gs) =
    let rest = repromoted_verbs cfg sample gs in
    if is_repromoted (observe g sample cfg.demote_after cfg.promote_after cfg.good_band).1
    then g.verb ∷ rest
    else rest

unfoldable pub on_proxy_signals : Ctx → ProxySample → MonoNs → Outcome Ctx
unfolding observe_all repromoted_verbs emits grant_changes apply_pending_demotions
on_proxy_signals c sample at =
    let verbs = repromoted_verbs c.cfg sample c.s.grants in
    let c1 = record c { s = record (c.s) { grants = observe_all c.cfg sample c.s.grants } } in
    let c2 = emits c1 (
      grant_changes at (episode_id c.s.episode) GrantStatus.demoted GrantStatus.active
        "sustained recovery below hysteresis band" verbs) in
    if has_active_episode c.s.episode then done c2 else done (apply_pending_demotions c2 at)

-- The first entry of the directive's verb takes the directed status.
unfoldable pub direct_first : GrantChangeDirective → List GrantHealthEntry → List GrantHealthEntry
direct_first change [] = []
direct_first change (g ∷ gs) =
    let rest = g ∷ direct_first change gs in
    if same_verb g.verb change.verb
    then record g { status = change.to; partition_demoted = false; pending_demote = none } ∷ gs
    else rest

unfoldable pub find_status : Verb → List GrantHealthEntry → Option GrantStatus
find_status verb [] = none
find_status verb (g ∷ gs) =
    let rest = find_status verb gs in if same_verb g.verb verb then some g.status else rest

unfoldable pub direct_all :
    List GrantChangeDirective → List GrantHealthEntry → List GrantHealthEntry
unfolding direct_first
direct_all [] gs = gs
direct_all (change ∷ changes) gs = direct_all changes (direct_first change gs)

unfoldable pub directed_events :
    MonoNs
    → Option EpisodeId
    → List GrantChangeDirective
    → List GrantHealthEntry
    → List EpisodeEvent
unfolding event_of find_status direct_first
directed_events at ep [] gs = []
directed_events at ep (change ∷ changes) gs =
    let rest = directed_events at ep changes (direct_first change gs) in
    elim (find_status change.verb gs) [
      | none ↦ rest
      | some from ↦ event_of at ep (Body.grant change.verb from change.to change.reason at) ∷ rest
    ]

unfoldable pub on_heartbeat_ack : Ctx → List GrantChangeDirective → MonoNs → Outcome Ctx
unfolding direct_all directed_events emits
on_heartbeat_ack c changes at =
    let events = directed_events at (episode_id c.s.episode) changes c.s.grants in
    done (emits (record c { s = record (c.s) { grants = direct_all changes c.s.grants } }) events)

unfoldable pub on_partition_start : Ctx → MonoNs → Outcome Ctx
unfolding push
on_partition_start c at = done (
    push (record c { s = record (c.s) { plane_connected = false } })
      (Effect.arm_timer TimerId.heartbeat_stale (saturating_add at c.cfg.heartbeat_timeout_ns)))

unfoldable pub restore_all : List GrantHealthEntry → List GrantHealthEntry
restore_all [] = []
restore_all (g ∷ gs) =
    (if g.partition_demoted
      then record g { partition_demoted = false; status = GrantStatus.active }
      else g)
    ∷ restore_all gs

unfoldable pub restored_verbs : List GrantHealthEntry → List Verb
restored_verbs [] = []
restored_verbs (g ∷ gs) =
    let rest = restored_verbs gs in if g.partition_demoted then g.verb ∷ rest else rest

unfoldable pub on_partition_end : Ctx → MonoNs → Outcome Ctx
unfolding push emits grant_changes restore_all restored_verbs
on_partition_end c at =
    let verbs = restored_verbs c.s.grants in
    let c1 =
      push (record c { s = record (c.s) { plane_connected = true; buffered_events = 0 } })
        (Effect.cancel_timer TimerId.heartbeat_stale) in
    done (
      emits (record c1 { s = record (c1.s) { grants = restore_all c.s.grants } })
        (grant_changes at (episode_id c.s.episode) GrantStatus.demoted GrantStatus.active
          "control plane reconnected" verbs))

abbrev loses_plane : GrantHealthEntry → Bool
loses_plane g = same_verb g.verb Verb.send && is_active g.status

unfoldable pub partition_all : List GrantHealthEntry → List GrantHealthEntry
partition_all [] = []
partition_all (g ∷ gs) =
    (if loses_plane g
      then record g { status = GrantStatus.demoted; partition_demoted = true }
      else g)
    ∷ partition_all gs

unfoldable pub partitioned_verbs : List GrantHealthEntry → List Verb
partitioned_verbs [] = []
partitioned_verbs (g ∷ gs) =
    let rest = partitioned_verbs gs in if loses_plane g then g.verb ∷ rest else rest

-- `TimerFired{HeartbeatStale}`.
unfoldable pub on_heartbeat_stale : Ctx → MonoNs → Outcome Ctx
unfolding emit push emits event_of grant_changes partition_all partitioned_verbs
on_heartbeat_stale c at =
    if c.s.plane_connected
    then done c
    else let c1 = emit c (
        event_of at (episode_id c.s.episode) (
          Body.tripwire "control-plane-heartbeat" Verb.hold
            "heartbeat stale during partition; requesting hold")) in
      let c2 = push c1 (Effect.request_verb Verb.hold) in
      let verbs = partitioned_verbs c.s.grants in
      done (
        emits (record c2 { s = record (c2.s) { grants = partition_all c.s.grants } })
          (grant_changes at (episode_id c.s.episode) GrantStatus.active GrantStatus.demoted
            "partition" verbs))
