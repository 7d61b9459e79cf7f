-- ===== src/Runtime/Timers/Table.antt =====
-- The table of armed timers of reducer.rs: each id once, and the order in which a round fires.
use waddle_sdk.Prelude.{◌≡◌, refl, Bool, false, [], ◌∷◌, inl, inr, Bool-cases, arith}
use waddle_sdk.Prelude.Int.{◌≤ℤ◌, ltb_ℤ}
use waddle_sdk.Types.Time.{MonoNs}
use waddle_sdk.Session.Effect.{TimerId}
use waddle_sdk.Runtime.Timers.{Armed, same_timer, retain, insert_by_deadline, sort_by_deadline}

-- No entry of the table is under `id`.
abbrev pub Unarmed : TimerId → Armed → Type 0
Unarmed id [] = Unit
Unarmed id (t ∷ ts) = (same_timer t.0 id ≡ false) × Unarmed id ts

-- Every id is armed at most once.
abbrev pub AtMostOnce : Armed → Type 0
AtMostOnce [] = Unit
AtMostOnce (t ∷ ts) = Unarmed t.0 ts × AtMostOnce ts

-- No deadline is before `d`.
abbrev pub NoneBefore : MonoNs → Armed → Type 0
NoneBefore d [] = Unit
NoneBefore d (t ∷ ts) = (d ≤ℤ t.1) × NoneBefore d ts

abbrev pub InOrder : Armed → Type 0
InOrder [] = Unit
InOrder (t ∷ ts) = NoneBefore t.1 ts × InOrder ts

retain-Unarmed :
    (keep : TimerId × MonoNs → Bool) (id : TimerId) (ts : Armed)
    → Unarmed id ts
    → Unarmed id (retain keep ts)
unfolding retain
retain-Unarmed keep id [] h = tt
retain-Unarmed keep id (t ∷ ts) h = elim (Bool-cases (keep t)) [
  | inl y ↦ rw y (h.0, retain-Unarmed keep id ts h.1)
  | inr n ↦ rw n (retain-Unarmed keep id ts h.1)
]

pub retain-AtMostOnce :
    (keep : TimerId × MonoNs → Bool) (ts : Armed) → AtMostOnce ts → AtMostOnce (retain keep ts)
unfolding retain
retain-AtMostOnce keep [] h = tt
retain-AtMostOnce keep (t ∷ ts) h = elim (Bool-cases (keep t)) [
  | inl y ↦ rw y (retain-Unarmed keep t.0 ts h.0, retain-AtMostOnce keep ts h.1)
  | inr n ↦ rw n (retain-AtMostOnce keep ts h.1)
]

pub same_timer_comm : (a b : TimerId) → same_timer a b ≡ same_timer b a
same_timer_comm TimerId.engage_timeout b =
    elim b as (λ k. same_timer TimerId.engage_timeout k ≡ same_timer k TimerId.engage_timeout) [
      | TimerId.engage_timeout ↦ refl
      | TimerId.chunk_boundary_cap ↦ refl
      | TimerId.heartbeat_stale ↦ refl
      | TimerId.reset_window_timeout ↦ refl
      | TimerId.agent_invite_timeout ↦ refl
    ]
same_timer_comm TimerId.chunk_boundary_cap b =
    elim b
      as (λ k. same_timer TimerId.chunk_boundary_cap k ≡ same_timer k TimerId.chunk_boundary_cap) [
        | TimerId.engage_timeout ↦ refl
        | TimerId.chunk_boundary_cap ↦ refl
        | TimerId.heartbeat_stale ↦ refl
        | TimerId.reset_window_timeout ↦ refl
        | TimerId.agent_invite_timeout ↦ refl
      ]
same_timer_comm TimerId.heartbeat_stale b =
    elim b as (λ k. same_timer TimerId.heartbeat_stale k ≡ same_timer k TimerId.heartbeat_stale) [
      | TimerId.engage_timeout ↦ refl
      | TimerId.chunk_boundary_cap ↦ refl
      | TimerId.heartbeat_stale ↦ refl
      | TimerId.reset_window_timeout ↦ refl
      | TimerId.agent_invite_timeout ↦ refl
    ]
same_timer_comm TimerId.reset_window_timeout b =
    elim b
      as (λ k.
        same_timer TimerId.reset_window_timeout k ≡ same_timer k TimerId.reset_window_timeout) [
          | TimerId.engage_timeout ↦ refl
          | TimerId.chunk_boundary_cap ↦ refl
          | TimerId.heartbeat_stale ↦ refl
          | TimerId.reset_window_timeout ↦ refl
          | TimerId.agent_invite_timeout ↦ refl
        ]
same_timer_comm TimerId.agent_invite_timeout b =
    elim b
      as (λ k.
        same_timer TimerId.agent_invite_timeout k ≡ same_timer k TimerId.agent_invite_timeout) [
          | TimerId.engage_timeout ↦ refl
          | TimerId.chunk_boundary_cap ↦ refl
          | TimerId.heartbeat_stale ↦ refl
          | TimerId.reset_window_timeout ↦ refl
          | TimerId.agent_invite_timeout ↦ refl
        ]

insert-Unarmed :
    (id : TimerId) (t : TimerId × MonoNs) (ts : Armed)
    → same_timer t.0 id ≡ false
    → Unarmed id ts
    → Unarmed id (insert_by_deadline t ts)
unfolding insert_by_deadline
insert-Unarmed id t [] h k = (h, tt)
insert-Unarmed id t (u ∷ us) h k = elim (Bool-cases (ltb_ℤ u.1 t.1)) [
  | inl y ↦ rw y (k.0, insert-Unarmed id t us h k.1)
  | inr n ↦ rw n (h, k)
]

insert-AtMostOnce :
    (t : TimerId × MonoNs) (ts : Armed)
    → Unarmed t.0 ts
    → AtMostOnce ts
    → AtMostOnce (insert_by_deadline t ts)
unfolding insert_by_deadline
insert-AtMostOnce t [] h k = (tt, tt)
insert-AtMostOnce t (u ∷ us) h k = elim (Bool-cases (ltb_ℤ u.1 t.1)) [
  | inl y ↦ rw y (
    insert-Unarmed u.0 t us (rw (same_timer_comm t.0 u.0) h.0) k.0,
    insert-AtMostOnce t us h.1 k.1,
  )
  | inr n ↦ rw n (h, k)
]

sort-Unarmed : (id : TimerId) (ts : Armed) → Unarmed id ts → Unarmed id (sort_by_deadline ts)
unfolding sort_by_deadline
sort-Unarmed id [] h = tt
sort-Unarmed id (t ∷ ts) h = insert-Unarmed id t (sort_by_deadline ts) h.0 (sort-Unarmed id ts h.1)

pub sort-AtMostOnce : (ts : Armed) → AtMostOnce ts → AtMostOnce (sort_by_deadline ts)
unfolding sort_by_deadline
sort-AtMostOnce [] h = tt
sort-AtMostOnce (t ∷ ts) h =
    insert-AtMostOnce t (sort_by_deadline ts) (sort-Unarmed t.0 ts h.0) (sort-AtMostOnce ts h.1)

NoneBefore-trans : (c d : MonoNs) (ts : Armed) → c ≤ℤ d → NoneBefore d ts → NoneBefore c ts
NoneBefore-trans c d [] h k = tt
NoneBefore-trans c d (t ∷ ts) h k = (ground (arith, h, k.0), NoneBefore-trans c d ts h k.1)

insert-NoneBefore :
    (d : MonoNs) (t : TimerId × MonoNs) (ts : Armed)
    → d ≤ℤ t.1
    → NoneBefore d ts
    → NoneBefore d (insert_by_deadline t ts)
unfolding insert_by_deadline
insert-NoneBefore d t [] h k = (h, tt)
insert-NoneBefore d t (u ∷ us) h k = elim (Bool-cases (ltb_ℤ u.1 t.1)) [
  | inl y ↦ rw y (k.0, insert-NoneBefore d t us h k.1)
  | inr n ↦ rw n (h, k)
]

insert-InOrder :
    (t : TimerId × MonoNs) (ts : Armed) → InOrder ts → InOrder (insert_by_deadline t ts)
unfolding insert_by_deadline
insert-InOrder t [] k = (tt, tt)
insert-InOrder t (u ∷ us) k = elim (Bool-cases (ltb_ℤ u.1 t.1)) [
  | inl y ↦ rw y (insert-NoneBefore u.1 t us (ground (arith, y)) k.0, insert-InOrder t us k.1)
  | inr n ↦ rw n ((ground (arith, n), NoneBefore-trans t.1 u.1 us (ground (arith, n)) k.0), k)
]

pub sort-InOrder : (ts : Armed) → InOrder (sort_by_deadline ts)
unfolding sort_by_deadline
sort-InOrder [] = tt
sort-InOrder (t ∷ ts) = insert-InOrder t (sort_by_deadline ts) (sort-InOrder ts)
