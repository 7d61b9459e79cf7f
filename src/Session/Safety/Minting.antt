-- ===== src/Session/Safety/Minting.antt =====
-- The answer to a mint request keeps the invariant and does not panic.
use waddle_sdk.Prelude.{refl, inl, inr, Bool-cases, Option, none, some, ℕ, arith}
use waddle_sdk.Types.Time.{MonoNs}
use waddle_sdk.Types.{LeaseId}
use waddle_sdk.Lease.{LeaseState}
use waddle_sdk.Session.Episode.{EpisodeState}
use waddle_sdk.Session.Effect.{LeaseOpKind, AfterLease, PendingLeaseOp}
use waddle_sdk.Session.Context.{Ctx}
use waddle_sdk.Session.Handlers.Leases.{on_lease_token_minted, is_stale}
use waddle_sdk.Session.Safety.Invariant.{Inv, Keeps}
use waddle_sdk.Session.Safety.Leases.{asking, answering, apply_lease-Keeps}

answered-Inv :
    (c : Ctx) (e : EpisodeState) (l : LeaseState) (op : LeaseOpKind) (next : AfterLease) (b : ℕ)
    → Inv (asking c (some e) l op next).s
    → Inv (record ((answering c (some e) l).s) { buffered_events = b })
answered-Inv c e l op next b v = ground arith

minted_parts :
    (c : Ctx) (o : Option EpisodeState) (l : LeaseState) (op : LeaseOpKind) (next : AfterLease)
    (minted : LeaseId) (at : MonoNs)
    → Inv (asking c o l op next).s
    → Keeps (on_lease_token_minted (asking c o l op next) minted at)
unfolding on_lease_token_minted
minted_parts c none l op next minted at v = cc (v.asked refl)
minted_parts c (some e) l op next minted at v =
    elim (Bool-cases (is_stale (answering c (some e) l).s next)) [
      | inl y ↦ rw y (answered-Inv c e l op next _ v)
      | inr n ↦ rw n (apply_lease-Keeps c e at l op next minted n v)
    ]

minted_pending :
    (c : Ctx) (p : Option PendingLeaseOp) (minted : LeaseId) (at : MonoNs)
    → Inv (record (c.s) { pending_lease = p })
    → Keeps (on_lease_token_minted (record c { s = record (c.s) { pending_lease = p } }) minted at)
unfolding on_lease_token_minted
minted_pending c none minted at v = tt
minted_pending c (some p) minted at v = minted_parts c c.s.episode c.s.lease p.op p.next minted at v

pub on_lease_token_minted-Keeps :
    (c : Ctx) (minted : LeaseId) (at : MonoNs) → Inv c.s → Keeps (on_lease_token_minted c minted at)
on_lease_token_minted-Keeps c minted at v = minted_pending c c.s.pending_lease minted at v
