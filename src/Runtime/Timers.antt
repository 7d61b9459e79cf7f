-- ===== src/Runtime/Timers.antt =====
-- The table of armed timers of reducer.rs in waddle-core/crates/waddle-runtime/src.
pub mod Table
pub mod Due
use waddle_sdk.Prelude.{ℕ, Bool, true, false, not, List, [], ◌∷◌, ◌++◌, ltb, if◌then◌else◌}
use waddle_sdk.Prelude.Int.{ℤ, pos, pos_part, ltb_ℤ}
use waddle_sdk.Types.Time.{MonoNs}
use waddle_sdk.Types.Wrapping.{sub_i64}
use waddle_sdk.Session.Effect.{TimerId}

abbrev pub same_timer : TimerId → TimerId → Bool
same_timer TimerId.engage_timeout TimerId.engage_timeout = true
same_timer TimerId.chunk_boundary_cap TimerId.chunk_boundary_cap = true
same_timer TimerId.heartbeat_stale TimerId.heartbeat_stale = true
same_timer TimerId.reset_window_timeout TimerId.reset_window_timeout = true
same_timer TimerId.agent_invite_timeout TimerId.agent_invite_timeout = true
same_timer _ _ = false

abbrev pub Armed : Type 0
Armed = List (TimerId × MonoNs)

-- `Vec::retain`.
unfoldable pub retain : {A : Type 0} → (A → Bool) → List A → List A
retain keep [] = []
retain keep (x ∷ xs) = let rest = retain keep xs in if keep x then x ∷ rest else rest

unfoldable pub cancel : TimerId → Armed → Armed
unfolding retain
cancel id = retain λ t. not (same_timer t.0 id)

unfoldable pub arm : TimerId → MonoNs → Armed → Armed
unfolding cancel
arm id deadline armed = cancel id armed ++ (id, deadline) ∷ []

-- One step of a stable sort by deadline.
unfoldable pub insert_by_deadline : TimerId × MonoNs → Armed → Armed
insert_by_deadline t [] = t ∷ []
insert_by_deadline t (u ∷ us) =
    let rest = insert_by_deadline t us in if ltb_ℤ u.1 t.1 then u ∷ rest else t ∷ u ∷ us

unfoldable pub sort_by_deadline : Armed → Armed
unfolding insert_by_deadline
sort_by_deadline [] = []
sort_by_deadline (t ∷ ts) = insert_by_deadline t (sort_by_deadline ts)

abbrev pub is_later : MonoNs → TimerId × MonoNs → Bool
is_later now t = ltb_ℤ now t.1

-- The timers that fire at `now`, in the order in which they do.
unfoldable pub due : MonoNs → Armed → Armed
unfolding retain sort_by_deadline
due now armed = sort_by_deadline (retain (λ t. not (is_later now t)) armed)

unfoldable pub pending : MonoNs → Armed → Armed
unfolding retain
pending now armed = retain (is_later now) armed

-- `(d.0 - now.0).max(0)`, as the `u64` that it is cast to.
abbrev pub remaining : MonoNs → MonoNs → ℕ
remaining now deadline = pos_part (sub_i64 deadline now)

abbrev min_ℕ : ℕ → ℕ → ℕ
min_ℕ a b = if ltb a b then a else b

abbrev wait_within : MonoNs → ℕ → Armed → ℕ
wait_within now wait [] = wait
wait_within now wait (t ∷ ts) = wait_within now (min_ℕ wait (remaining now t.1)) ts

-- How long the loop waits for an event: until the first deadline, and 20 ms at most.
unfoldable pub wait_ns : MonoNs → Armed → ℕ
unfolding sub_i64
wait_ns now armed = wait_within now 20000000 armed
