-- ===== src/Session/Engage.antt =====
-- Takeover and release: `begin_engage`, `mint_engage_handoff` and `begin_release` of session.rs.
use waddle_sdk.Prelude.{true, ◌&&◌, not, none, some, if◌then◌else◌}
use waddle_sdk.Prelude.Int.{pos, ltb_ℤ}
use waddle_sdk.Outcome.{Outcome, done, expect, ◌>>=◌}
use waddle_sdk.Types.Time.{MonoNs, saturating_add}
use waddle_sdk.Types.{Verb, HandoffPolicy, InterventionPhase}
use waddle_sdk.Lease.{holder}
use waddle_sdk.Session.Episode.{Phase, client}
use waddle_sdk.Session.Emission.{Body, event_of}
use waddle_sdk.Session.Effect.{TimerId, LeaseOpKind, AfterLease, Effect}
use waddle_sdk.Session.State.{EngageStage, SessionConfig}
use waddle_sdk.Session.Context.{Ctx, push, emit, episode, update_episode, transition}
use waddle_sdk.Session.Reset.{mint, route_op}

unfoldable pub set_stage : Ctx → EngageStage → Ctx
set_stage c stage = record c { s = record (c.s) { engage_stage = some stage } }

unfoldable pub mint_engage_handoff : Ctx → Outcome Ctx
unfolding client route_op mint set_stage
mint_engage_handoff c = do
  k ← expect c.s.claim "guarded"
  done (
      set_stage (mint c (record { op = route_op c (client k); next = AfterLease.engage_complete }))
        EngageStage.await_lease)

-- A delta space refuses mid-chunk splice entry.
unfoldable pub engage_policy : SessionConfig → HandoffPolicy
engage_policy cfg = elim cfg.handoff [
  | HandoffPolicy.immediate blend ↦
      if cfg.space_contains_delta then HandoffPolicy.hold_first else HandoffPolicy.immediate blend
  | p ↦ p
]

unfoldable pub engage_by : Ctx → MonoNs → HandoffPolicy → Outcome Ctx
unfolding push set_stage mint_engage_handoff
engage_by c at HandoffPolicy.hold_first =
    done (set_stage (push c (Effect.request_verb Verb.hold)) EngageStage.await_hold_ok)
engage_by c at (HandoffPolicy.immediate blend) = mint_engage_handoff c
engage_by c at (HandoffPolicy.chunk_boundary max_wait_ns) = done (
    set_stage
      (if ltb_ℤ (pos 0) max_wait_ns
        then push c (Effect.arm_timer TimerId.chunk_boundary_cap (saturating_add at max_wait_ns))
        else c)
      EngageStage.await_chunk_boundary)

-- The first agent ENGAGE closes the invite (§1.5).
unfoldable pub close_invite : Ctx → Outcome Ctx
unfolding episode update_episode push
close_invite c = do
  e ← episode c
  if e.agent_invited && not e.agent_engaged
      then (do
        c1 ← update_episode c (λ e1. record e1 { agent_engaged = true })
        done (push c1 (Effect.cancel_timer TimerId.agent_invite_timeout)))
      else done c

-- E7 and I1.
unfoldable pub begin_engage : Ctx → MonoNs → Outcome Ctx
unfolding transition episode emit event_of close_invite push engage_policy engage_by
begin_engage c at = do
  k ← expect c.s.claim "guarded"
  c1 ← transition c at (Phase.intervention InterventionPhase.engage) "engage" none
  e ← episode c1
  let c2 = emit c1 (event_of at (some e.id) (Body.intervention InterventionPhase.engage k.id))
  c3 ← close_invite c2
  let c4 =
      push c3 (Effect.arm_timer TimerId.engage_timeout (saturating_add at c3.cfg.engage_timeout_ns))
  engage_by c4 at (engage_policy c4.cfg)

-- I3.
unfoldable pub begin_release : Ctx → MonoNs → Outcome Ctx
unfolding episode update_episode emit push event_of holder mint
begin_release c at = do
  k ← expect c.s.claim "guarded"
  e ← episode c
  c1 ← update_episode c (λ e1. record e1 { phase = Phase.intervention InterventionPhase.release })
  let c2 = emit c1 (event_of at (some e.id) (Body.intervention InterventionPhase.release k.id))
  let c3 = push c2 Effect.reprime_policy
  held ← expect (holder c3.s.lease) "intervenor holds the lease in SETTLE"
  done (
      mint c3 (record {
        op = LeaseOpKind.handoff held.0 c3.cfg.loop_client;
        next = AfterLease.release_complete;
      }))
