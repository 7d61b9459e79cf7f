-- ===== src/Session/Safety/Reached.antt =====
-- What holds in every state that session.rs reaches from a new session.
use waddle_sdk.Prelude.{◌≡◌, true, refl, subst, eq_iff, some, List, is_none}
use waddle_sdk.Outcome.{done}
use waddle_sdk.Types.{LeaseId}
use waddle_sdk.Lease.{LeaseState}
use waddle_sdk.Lease
use waddle_sdk.Lease.Authority.{IsDenied}
use waddle_sdk.Session.Effect.{LeaseOpKind, PendingLeaseOp}
use waddle_sdk.Session.Event.{SessionEvent}
use waddle_sdk.Session.State.{SessionConfig, SessionFsm, new}
use waddle_sdk.Session.Phases.{is_settle}
use waddle_sdk.Session.Handlers.Leases.{lease_cmd}
use waddle_sdk.Session.Machine.{run}
use waddle_sdk.Session.Safety.Invariant.{Inv, HeldFor, OpFits, target, PendingFits}
use waddle_sdk.Session.Safety.Steps.{TimelyRun, RunKeeps, run-Inv, new-Inv}

module _ (cfg : SessionConfig) (events : List SessionEvent) (s : SessionFsm)
    (t : TimelyRun cfg (new cfg) events) (r : run cfg (new cfg) events ≡ done s) where
  pub reached-Inv : Inv s
  reached-Inv = subst RunKeeps r (run-Inv cfg (new cfg) events (new-Inv cfg) t)

allowed :
    (l : LeaseState) (op : LeaseOpKind) (minted : LeaseId)
    → OpFits l op
    → (¬ IsDenied (Lease.step l (lease_cmd op minted)).1)
      × ((Lease.step l (lease_cmd op minted)).0 ≡ LeaseState.held minted (target op))
unfolding Lease.step lease_cmd
allowed LeaseState.vacant (LeaseOpKind.acquire client) minted f = (λ h. h, refl)
allowed LeaseState.vacant (LeaseOpKind.handoff from to) minted f = absurd f
allowed (LeaseState.held lease holder) (LeaseOpKind.acquire client) minted f = absurd f
allowed (LeaseState.held lease holder) (LeaseOpKind.handoff from to) minted f =
    rw ((eq_iff from lease).1 f, Lease.step) (λ h. h, refl)

pending-OpFits :
    (s : SessionFsm) (p : PendingLeaseOp) → Inv s → s.pending_lease ≡ some p → OpFits s.lease p.op
pending-OpFits s p v q = (subst (PendingFits s) q v.in_flight).0

-- In every state that a history without a premature reset-window timer reaches, the lease
-- operation in flight is one that the lease machine does not deny, whatever token is minted for
-- it, and that leaves the lease with the client that the operation names, under that token.
pub answer_moves_lease :
    (cfg : SessionConfig) (events : List SessionEvent) (s : SessionFsm) (p : PendingLeaseOp)
    (minted : LeaseId)
    → TimelyRun cfg (new cfg) events
    → run cfg (new cfg) events ≡ done s
    → s.pending_lease ≡ some p
    → (¬ IsDenied (Lease.step s.lease (lease_cmd p.op minted)).1)
      × ((Lease.step s.lease (lease_cmd p.op minted)).0 ≡ LeaseState.held minted (target p.op))
answer_moves_lease cfg events s p minted t r q =
    allowed s.lease p.op minted (pending-OpFits s p (reached-Inv cfg events s t r) q)

-- In every state that a history without a premature reset-window timer reaches, if the episode is
-- in INTERVENTION/SETTLE, then the lease is held, its client is the source of the claim in force,
-- and no lease operation is in flight.
pub settle-HeldFor :
    (cfg : SessionConfig) (events : List SessionEvent) (s : SessionFsm)
    → TimelyRun cfg (new cfg) events
    → run cfg (new cfg) events ≡ done s
    → is_settle s.episode ≡ true
    → HeldFor s.lease s.claim × (is_none s.pending_lease ≡ true)
settle-HeldFor cfg events s t r p =
    let v = reached-Inv cfg events s t r in (v.settled p, v.rested p)
