-- ===== src/Lease/Examples.antt =====
-- The lease machine of lease.rs on concrete commands.
use waddle_sdk.Prelude.{◌≡◌, refl, List, [], ◌∷◌, eq_iff}
use waddle_sdk.Lease.{LeaseState, LeaseCmd, LeaseOutcome, step}
use waddle_sdk.Lease.Authority.{
  Authorised, IsDenied, NeverMinted, IsDead, run, step-Authorised, dead_token-IsDenied,
}

-- The operator takes the lease over from the loop, and gives it back.
abbrev takeover : List LeaseCmd
takeover = LeaseCmd.handoff "t1" "operator" "t2" ∷ LeaseCmd.handoff "t2" "loop" "t3" ∷ []

takeover_ends : run (LeaseState.held "t1" "loop") takeover ≡ LeaseState.held "t3" "loop"
unfolding run step
takeover_ends = refl

abbrev stale_release : LeaseState × LeaseOutcome
stale_release = step (LeaseState.held "t2" "operator") (LeaseCmd.release "t1")

step-Authorised_example :
    (Authorised (LeaseState.held "t2" "operator") (LeaseCmd.release "t1")
      → ¬ IsDenied stale_release.1)
    × (¬ IsDenied stale_release.1
        → Authorised (LeaseState.held "t2" "operator") (LeaseCmd.release "t1"))
    × (IsDenied stale_release.1 → stale_release.0 ≡ LeaseState.held "t2" "operator")
step-Authorised_example = step-Authorised (LeaseState.held "t2" "operator") (LeaseCmd.release "t1")

t1-IsDead : IsDead "t1" (LeaseState.held "t2" "operator")
t1-IsDead h = cc ((eq_iff "t2" "t1").1 h)

t1-NeverMinted : NeverMinted "t1" (LeaseCmd.handoff "t2" "loop" "t3" ∷ [])
t1-NeverMinted = (λ h. cc ((eq_iff "t3" "t1").1 h), tt)

dead_token-IsDenied_example :
    IsDenied
      (step
        (run (LeaseState.held "t2" "operator") (LeaseCmd.handoff "t2" "loop" "t3" ∷ []))
        (LeaseCmd.release "t1")).1
    × IsDenied
        (step
          (run (LeaseState.held "t2" "operator") (LeaseCmd.handoff "t2" "loop" "t3" ∷ []))
          (LeaseCmd.handoff "t1" "operator" "t4")).1
dead_token-IsDenied_example =
    dead_token-IsDenied "t1" (LeaseState.held "t2" "operator")
      (LeaseCmd.handoff "t2" "loop" "t3" ∷ []) "operator" "t4" t1-IsDead t1-NeverMinted
