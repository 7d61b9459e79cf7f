-- ===== src/Session/Guarantees/Partition.antt =====
-- The grants across a control-plane partition (FSM.md §8): the demotion at heartbeat staleness and
-- the restoration at the partition's end, in session.rs.
use waddle_sdk.Prelude.{◌≡◌, Bool, true, false, refl, ap, List, [], ◌∷◌, if◌then◌else◌}
use waddle_sdk.Types.{Verb, GrantStatus}
use waddle_sdk.GrantHealth.{GrantHealthEntry}
use waddle_sdk.Session.Handlers.Plane.{
  partition_all, restore_all, partitioned_verbs, restored_verbs,
}

-- No grant is demoted by a partition.
abbrev pub Unpartitioned : List GrantHealthEntry → Type 0
Unpartitioned [] = Unit
Unpartitioned (g ∷ gs) = (g.partition_demoted ≡ false) × Unpartitioned gs

-- A partition takes the grant of an active SEND, and no other.
abbrev pub takes : Verb → GrantStatus → Bool
takes Verb.send GrantStatus.active = true
takes _ _ = false

-- A grant before a partition, and after its heartbeat went stale.
abbrev pub Taken : Bool → GrantHealthEntry → GrantHealthEntry → Type 0
Taken true g h = h ≡ record g { status = GrantStatus.demoted; partition_demoted = true }
Taken false g h = h ≡ g

abbrev pub Demotes : List GrantHealthEntry → List GrantHealthEntry → Type 0
Demotes [] [] = Unit
Demotes (g ∷ gs) (h ∷ hs) = Taken (takes g.verb g.status) g h × Demotes gs hs
Demotes _ _ = ⊥

abbrev pub taken_verbs : List GrantHealthEntry → List Verb
taken_verbs [] = []
taken_verbs (g ∷ gs) =
    let rest = taken_verbs gs in if takes g.verb g.status then g.verb ∷ rest else rest

abbrev RestoredTo : List GrantHealthEntry → Type 0
RestoredTo gs =
    Demotes gs (partition_all gs)
    × (partitioned_verbs gs ≡ taken_verbs gs)
    × (restore_all (partition_all gs) ≡ gs)
    × (restored_verbs (partition_all gs) ≡ partitioned_verbs gs)

-- A grant by its parts.
abbrev entry : Verb → GrantStatus → Bool → GrantHealthEntry → GrantHealthEntry
entry verb status flag g = record g { verb = verb; status = status; partition_demoted = flag }

one_grant :
    (verb : Verb) (status : GrantStatus) (flag : Bool) (g : GrantHealthEntry)
    (gs : List GrantHealthEntry)
    → flag ≡ false
    → RestoredTo gs
    → RestoredTo (entry verb status flag g ∷ gs)
unfolding partition_all restore_all restored_verbs partitioned_verbs
one_grant Verb.send GrantStatus.active false g gs h r = (
  (refl, r.0),
  ap (λ rest. Verb.send ∷ rest) r.1,
  ap (λ rest. entry Verb.send GrantStatus.active false g ∷ rest) r.2,
  ap (λ rest. Verb.send ∷ rest) r.3,
)
one_grant Verb.send GrantStatus.demoted false g gs h r =
    ((refl, r.0), r.1, ap (λ rest. entry Verb.send GrantStatus.demoted false g ∷ rest) r.2, r.3)
one_grant Verb.send GrantStatus.revoked false g gs h r =
    ((refl, r.0), r.1, ap (λ rest. entry Verb.send GrantStatus.revoked false g ∷ rest) r.2, r.3)
one_grant Verb.hold status false g gs h r =
    ((refl, r.0), r.1, ap (λ rest. entry Verb.hold status false g ∷ rest) r.2, r.3)
one_grant Verb.resume status false g gs h r =
    ((refl, r.0), r.1, ap (λ rest. entry Verb.resume status false g ∷ rest) r.2, r.3)
one_grant Verb.home status false g gs h r =
    ((refl, r.0), r.1, ap (λ rest. entry Verb.home status false g ∷ rest) r.2, r.3)
one_grant Verb.estop status false g gs h r =
    ((refl, r.0), r.1, ap (λ rest. entry Verb.estop status false g ∷ rest) r.2, r.3)
one_grant verb status true g gs h r = cc

-- If no grant was demoted by an earlier partition, then a partition whose heartbeat goes stale demotes
-- exactly the active grants of SEND, marks them, leaves every other grant as it was and reports the
-- verbs of those that it demotes, in order; and its end gives every grant back exactly as it was
-- and reports the same verbs as restored, in the same order.
pub restore_all-partition_all :
    (gs : List GrantHealthEntry)
    → Unpartitioned gs
    → Demotes gs (partition_all gs)
      × (partitioned_verbs gs ≡ taken_verbs gs)
      × (restore_all (partition_all gs) ≡ gs)
      × (restored_verbs (partition_all gs) ≡ partitioned_verbs gs)
unfolding partition_all restore_all restored_verbs partitioned_verbs
restore_all-partition_all [] h = (tt, refl, refl, refl)
restore_all-partition_all (g ∷ gs) h =
    one_grant g.verb g.status g.partition_demoted g gs h.0 (restore_all-partition_all gs h.1)
