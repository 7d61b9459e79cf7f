-- ===== src/Lease/Authority.antt =====
-- Who may change the lease: the laws of `step` of lease.rs over one command and over a history.
use waddle_sdk.Prelude.{
  ◌≡◌, refl, ◌≢◌, Bool-cases, inl, inr, Option, none, some, List, [], ◌∷◌, ◌==◌, eq_iff, arith,
}
use waddle_sdk.Types.{ClientId, LeaseId}
use waddle_sdk.Lease.{LeaseState, LeaseCmd, LeaseOutcome, step}

abbrev pub token : LeaseState → Option LeaseId
token LeaseState.vacant = none
token (LeaseState.held lease client) = some lease

abbrev pub IsDenied : LeaseOutcome → Type 0
IsDenied (LeaseOutcome.denied detail) = Unit
IsDenied _ = ⊥

-- What the lease rules allow, written without the code: a vacant lease goes to whoever asks, a
-- held one is confirmed to its holder, its current token gives it back or passes it on, and an
-- emergency stop always revokes.
abbrev pub Authorised : LeaseState → LeaseCmd → Type 0
Authorised LeaseState.vacant (LeaseCmd.acquire client minted) = Unit
Authorised (LeaseState.held lease client) (LeaseCmd.acquire who minted) = who ≡ client
Authorised LeaseState.vacant (LeaseCmd.release old) = ⊥
Authorised (LeaseState.held lease client) (LeaseCmd.release old) = old ≡ lease
Authorised LeaseState.vacant (LeaseCmd.handoff from to minted) = ⊥
Authorised (LeaseState.held lease client) (LeaseCmd.handoff from to minted) = from ≡ lease
Authorised LeaseState.vacant LeaseCmd.revoke_all = Unit
Authorised (LeaseState.held lease client) LeaseCmd.revoke_all = Unit

-- A command is denied exactly when the lease rules do not allow it, and a denied command leaves
-- the lease as it was.
pub step-Authorised :
    (s : LeaseState) (c : LeaseCmd)
    → (Authorised s c → ¬ IsDenied (step s c).1)
      × (¬ IsDenied (step s c).1 → Authorised s c)
      × (IsDenied (step s c).1 → (step s c).0 ≡ s)
unfolding step
step-Authorised LeaseState.vacant (LeaseCmd.acquire client minted) =
    (λ _ h. h, λ _. tt, λ h. absurd h)
step-Authorised (LeaseState.held lease client) (LeaseCmd.acquire who minted) =
    (ground (arith, eq_iff who client), ground (arith, eq_iff who client), ground arith)
step-Authorised LeaseState.vacant (LeaseCmd.release old) = (λ h _. h, λ h. h tt, λ _. refl)
step-Authorised (LeaseState.held lease client) (LeaseCmd.release old) = (
  ground (arith, eq_iff old lease),
  ground (arith, eq_iff old lease),
  ground (arith, eq_iff old lease),
)
step-Authorised LeaseState.vacant (LeaseCmd.handoff from to minted) =
    (λ h _. h, λ h. h tt, λ _. refl)
step-Authorised (LeaseState.held lease client) (LeaseCmd.handoff from to minted) = (
  ground (arith, eq_iff from lease),
  ground (arith, eq_iff from lease),
  ground (arith, eq_iff from lease),
)
step-Authorised LeaseState.vacant LeaseCmd.revoke_all = (λ _ h. h, λ _. tt, λ h. absurd h)
step-Authorised (LeaseState.held lease client) LeaseCmd.revoke_all =
    (λ _ h. h, λ _. tt, λ h. absurd h)

-- A history of commands, answers left out.
unfoldable pub run : LeaseState → List LeaseCmd → LeaseState
unfolding step
run s [] = s
run s (c ∷ cs) = run (step s c).0 cs

-- The command does not bring the token `t` into the world.
abbrev pub NotMinted : LeaseId → LeaseCmd → Type 0
NotMinted t (LeaseCmd.acquire client minted) = minted ≢ t
NotMinted t (LeaseCmd.release old) = Unit
NotMinted t (LeaseCmd.handoff from to minted) = minted ≢ t
NotMinted t LeaseCmd.revoke_all = Unit

abbrev pub NeverMinted : LeaseId → List LeaseCmd → Type 0
NeverMinted t [] = Unit
NeverMinted t (c ∷ cs) = NotMinted t c × NeverMinted t cs

-- `t` is not the current token.
abbrev pub IsDead : LeaseId → LeaseState → Type 0
IsDead t LeaseState.vacant = Unit
IsDead t (LeaseState.held lease client) = lease ≢ t

step-IsDead :
    (t : LeaseId) (s : LeaseState) (c : LeaseCmd)
    → NotMinted t c
    → IsDead t s
    → IsDead t (step s c).0
unfolding step
step-IsDead t LeaseState.vacant (LeaseCmd.acquire client minted) n d = n
step-IsDead t (LeaseState.held lease client) (LeaseCmd.acquire who minted) n d =
    elim (Bool-cases (who == client)) [ inl e ↦ rw e d | inr e ↦ rw e d ]
step-IsDead t LeaseState.vacant (LeaseCmd.release old) n d = tt
step-IsDead t (LeaseState.held lease client) (LeaseCmd.release old) n d =
    elim (Bool-cases (old == lease)) [ inl e ↦ rw e tt | inr e ↦ rw e d ]
step-IsDead t LeaseState.vacant (LeaseCmd.handoff from to minted) n d = tt
step-IsDead t (LeaseState.held lease client) (LeaseCmd.handoff from to minted) n d =
    elim (Bool-cases (from == lease)) [ inl e ↦ rw e n | inr e ↦ rw e d ]
step-IsDead t LeaseState.vacant LeaseCmd.revoke_all n d = tt
step-IsDead t (LeaseState.held lease client) LeaseCmd.revoke_all n d = tt

run-IsDead :
    (t : LeaseId) (s : LeaseState) (cs : List LeaseCmd)
    → NeverMinted t cs
    → IsDead t s
    → IsDead t (run s cs)
unfolding run
run-IsDead t s [] n d = d
run-IsDead t s (c ∷ cs) n d = run-IsDead t (step s c).0 cs n.1 (step-IsDead t s c n.0 d)

release-IsDead :
    (t : LeaseId) (s : LeaseState) → IsDead t s → IsDenied (step s (LeaseCmd.release t)).1
unfolding step
release-IsDead t LeaseState.vacant d = tt
release-IsDead t (LeaseState.held lease client) d = ground (arith, eq_iff t lease)

handoff-IsDead :
    (t : LeaseId) (s : LeaseState) (to : ClientId) (minted : LeaseId)
    → IsDead t s
    → IsDenied (step s (LeaseCmd.handoff t to minted)).1
unfolding step
handoff-IsDead t LeaseState.vacant to minted d = tt
handoff-IsDead t (LeaseState.held lease client) to minted d = ground (arith, eq_iff t lease)

-- Once a token has stopped being the current one, it is dead for good: after any later history in
-- which no command mints it again, it neither gives the lease back nor passes it on to anybody.
pub dead_token-IsDenied :
    (t : LeaseId) (s : LeaseState) (cs : List LeaseCmd) (to : ClientId) (minted : LeaseId)
    → IsDead t s
    → NeverMinted t cs
    → IsDenied (step (run s cs) (LeaseCmd.release t)).1
      × IsDenied (step (run s cs) (LeaseCmd.handoff t to minted)).1
dead_token-IsDenied t s cs to minted d n =
    let dead = run-IsDead t s cs n d in
    (release-IsDead t (run s cs) dead, handoff-IsDead t (run s cs) to minted dead)
