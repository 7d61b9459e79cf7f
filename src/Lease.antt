-- ===== src/Lease.antt =====
-- The single-writer lease machine, waddle-core/crates/waddle-fsm/src/lease.rs (FSM.md §3, L1–L8).
-- Tokens are minted by the caller and arrive on the commands.
pub mod Authority
mod Examples
use waddle_sdk.Prelude.{
  ◌≡◌, refl, Bool, true, false, Option, none, some, String, ◌==◌, if◌then◌else◌,
}
use waddle_sdk.Types.{ClientId, LeaseId}

pub data LeaseState : Type 0 where
  vacant : LeaseState
  held : LeaseId → ClientId → LeaseState

unfoldable pub holder : LeaseState → Option (LeaseId × ClientId)
holder LeaseState.vacant = none
holder (LeaseState.held lease client) = some (lease, client)

pub data LeaseCmd : Type 0 where
  acquire : (client : ClientId) (minted : LeaseId) → LeaseCmd
  release : (lease : LeaseId) → LeaseCmd
  handoff : (from : LeaseId) (to : ClientId) (minted : LeaseId) → LeaseCmd
  revoke_all : LeaseCmd

pub data LeaseOutcome : Type 0 where
  granted : (lease : LeaseId) (client : ClientId) (fresh : Bool) → LeaseOutcome
  handed_off : (old new : LeaseId) (to : ClientId) → LeaseOutcome
  released : (lease : LeaseId) → LeaseOutcome
  revoked_all : (was : Option LeaseId) → LeaseOutcome
  denied : (detail : String) → LeaseOutcome

unfoldable pub step : LeaseState → LeaseCmd → LeaseState × LeaseOutcome
step LeaseState.vacant (LeaseCmd.acquire client minted) =
    (LeaseState.held minted client, LeaseOutcome.granted minted client true)
step (LeaseState.held lease client) (LeaseCmd.acquire who minted) =
    if who == client
    then (LeaseState.held lease client, LeaseOutcome.granted lease client false)
    else (LeaseState.held lease client, LeaseOutcome.denied "held by another client")
step (LeaseState.held lease client) (LeaseCmd.release token) =
    if token == lease
    then (LeaseState.vacant, LeaseOutcome.released lease)
    else (LeaseState.held lease client, LeaseOutcome.denied "stale or wrong lease token")
step LeaseState.vacant (LeaseCmd.release token) =
    (LeaseState.vacant, LeaseOutcome.denied "no lease held")
step (LeaseState.held lease client) (LeaseCmd.handoff from to minted) =
    if from == lease
    then (LeaseState.held minted to, LeaseOutcome.handed_off lease minted to)
    else (
      LeaseState.held lease client,
      LeaseOutcome.denied "handoff from a token that is not the current holder",
    )
step LeaseState.vacant (LeaseCmd.handoff from to minted) =
    (LeaseState.vacant, LeaseOutcome.denied "no lease to hand off")
step LeaseState.vacant LeaseCmd.revoke_all = (LeaseState.vacant, LeaseOutcome.revoked_all none)
step (LeaseState.held lease client) LeaseCmd.revoke_all =
    (LeaseState.vacant, LeaseOutcome.revoked_all (some lease))
