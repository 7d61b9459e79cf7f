-- ===== src/ControlPlane/Inflight.antt =====
-- The bound on the droppable messages in flight, waddle-core/crates/waddle-controlplane/src/inflight.rs: each
-- atomic access of `admit` and of `Slot::drop` is a step, and the steps of the threads interleave. The
-- relaxed orderings are read as sequentially consistent, since all accesses are read-modify-writes of
-- one counter each.
pub mod Bound
use waddle_sdk.Prelude.{ℕ, suc, ◌+◌, ◌-◌, ◌%◌, ◌^◌, ◌≡◌, ◌≤◌, Bool, true, false, ltb, if◌then◌else◌}

-- The counters, and how many callers stand where: outside `admit`, before the `fetch_sub` of a refused
-- admission, and before the count of its drop. `holders` are the messages in flight that hold a slot, the droppable
-- ones, and `unmetered` the others.
pub record Sink : Type 0 where
  pub cap : ℕ
  pub live : ℕ
  pub dropped : ℕ
  pub idle : ℕ
  pub backing_off : ℕ
  pub counting : ℕ
  pub holders : ℕ
  pub unmetered : ℕ

unfoldable pub new : ℕ → ℕ → Sink
new cap callers = record {
  cap = if ltb cap 1 then 1 else cap;
  live = 0;
  dropped = 0;
  idle = callers;
  backing_off = 0;
  counting = 0;
  holders = 0;
  unmetered = 0;
}

-- `live.fetch_add(1) >= cap`: the caller holds a slot, or is to back off.
unfoldable pub enter : Sink → Sink
enter s =
    let added = (s.live + 1) % 2 ^ 64 in
    if ltb s.live s.cap
    then record s { live = added; holders = s.holders + 1 }
    else record s { live = added; idle = s.idle - 1; backing_off = s.backing_off + 1 }

-- The first access of `admit`: a message that is not droppable passes and takes no slot.
unfoldable pub begin_admit : Bool → Sink → Sink
unfolding enter
begin_admit false s = record s { unmetered = s.unmetered + 1 }
begin_admit true s = enter s

abbrev decrement : ℕ → ℕ
decrement n = if ltb 0 n then n - 1 else 2 ^ 64 - 1

-- `live.fetch_sub(1)` of a refused admission.
unfoldable pub back_off : Sink → Sink
back_off s = record s {
  live = decrement s.live;
  backing_off = s.backing_off - 1;
  counting = s.counting + 1;
}

-- `dropped.fetch_add(1)`, and `admit` returns `None`.
unfoldable pub count_drop : Sink → Sink
count_drop s = record s {
  dropped = (s.dropped + 1) % 2 ^ 64;
  counting = s.counting - 1;
  idle = s.idle + 1;
}

-- `Slot::drop`.
unfoldable pub release : Sink → Sink
release s = record s { live = decrement s.live; holders = s.holders - 1 }

-- A message without a slot is taken on by the transport, or dropped.
unfoldable pub take_on : Sink → Sink
take_on s = record s { unmetered = s.unmetered - 1 }

-- A step of any caller or of the transport.
pub data Step : Sink → Sink → Type 0 where
  entered : (s : Sink) (droppable : Bool) → 1 ≤ s.idle → Step s (begin_admit droppable s)
  backed_off : (s : Sink) → 1 ≤ s.backing_off → Step s (back_off s)
  counted : (s : Sink) → 1 ≤ s.counting → Step s (count_drop s)
  released : (s : Sink) → 1 ≤ s.holders → Step s (release s)
  taken_on : (s : Sink) → 1 ≤ s.unmetered → Step s (take_on s)

pub data Reached (cap callers : ℕ) : Sink → Type 0 where
  start : Reached cap callers (new cap callers)
  next : (s t : Sink) → Reached cap callers s → Step s t → Reached cap callers t
