-- ===== src/ControlPlane/Inflight/Bound.antt =====
-- The safety of the counter of waddle-core/crates/waddle-controlplane/src/inflight.rs.
use waddle_sdk.Prelude.{
  ℕ, ◌+◌, ◌^◌, ◌≡◌, ◌≤◌, ◌<◌, arith, refl, Bool-cases, inl, inr, ltb, true, false,
}
use waddle_sdk.ControlPlane.Inflight.{
  Sink, new, begin_admit, enter, back_off, count_drop, release, take_on, Step, entered, backed_off,
  counted, released, taken_on, Reached, start, next,
}

-- The cap is the declared one, at least one, every slot is accounted for, and no caller is lost.
pub record Bounded (cap callers : ℕ) (s : Sink) : Type 0 where
  pub same_cap : s.cap ≡ (new cap callers).cap
  pub exact : s.live ≡ s.holders + s.backing_off
  pub at_most : s.holders ≤ s.cap
  pub all_here : s.idle + s.backing_off + s.counting ≡ callers

new-Bounded : (cap callers : ℕ) → Bounded cap callers (new cap callers)
unfolding new
new-Bounded cap callers = record {
  same_cap = refl;
  exact = omega arith;
  at_most = omega arith;
  all_here = omega arith;
}

step-Bounded :
    (cap callers : ℕ) (s t : Sink)
    → (new cap callers).cap + callers < 2 ^ 64
    → Bounded cap callers s
    → Step s t
    → Bounded cap callers t
unfolding begin_admit enter back_off count_drop release take_on
step-Bounded cap callers s t h b (entered _ false i) = record {
  same_cap = b.same_cap;
  exact = b.exact;
  at_most = b.at_most;
  all_here = b.all_here;
}
step-Bounded cap callers s t h b (taken_on _ i) = record {
  same_cap = b.same_cap;
  exact = b.exact;
  at_most = b.at_most;
  all_here = b.all_here;
}
step-Bounded cap callers s t h b (entered _ true i) = elim (Bool-cases (ltb s.live s.cap)) [
  | inl e ↦ rw e (record {
    same_cap = b.same_cap;
    exact = ground (arith, h, e, b.exact, b.at_most, b.same_cap, b.all_here);
    at_most = ground (arith, e, b.exact);
    all_here = b.all_here;
  })
  | inr e ↦ rw e (record {
    same_cap = b.same_cap;
    exact = ground (arith, h, b.exact, b.at_most, b.same_cap, b.all_here);
    at_most = b.at_most;
    all_here = omega (arith, i, b.all_here);
  })
]
step-Bounded cap callers s t h b (backed_off _ i) = record {
  same_cap = b.same_cap;
  exact = ground (arith, i, b.exact);
  at_most = b.at_most;
  all_here = omega (arith, i, b.all_here);
}
step-Bounded cap callers s t h b (counted _ i) = record {
  same_cap = b.same_cap;
  exact = b.exact;
  at_most = b.at_most;
  all_here = omega (arith, i, b.all_here);
}
step-Bounded cap callers s t h b (released _ i) = record {
  same_cap = b.same_cap;
  exact = ground (arith, i, b.exact);
  at_most = omega (arith, b.at_most);
  all_here = b.all_here;
}

bounded :
    (cap callers : ℕ) (s : Sink)
    → (new cap callers).cap + callers < 2 ^ 64
    → Reached cap callers s
    → Bounded cap callers s
bounded cap callers s h start = new-Bounded cap callers
bounded cap callers s h (next u _ r step) =
    step-Bounded cap callers u s h (bounded cap callers u h r) step

-- A message that is not droppable is in flight at once, and moves no counter and no slot.
abbrev pub Passes : Sink → Type 0
Passes s =
    let t = begin_admit false s in
    (t.unmetered ≡ s.unmetered + 1)
    × (t.live ≡ s.live)
    × (t.dropped ≡ s.dropped)
    × (t.holders ≡ s.holders)
    × (t.backing_off ≡ s.backing_off)

-- Whatever the callers and the transport interleave, the droppable messages in flight, those that hold
-- a slot, never exceed the cap, and the live counter is their number and that of the callers that
-- are backing off, as long as the cap and the callers together stay below 2^64. And a message that is
-- not droppable passes in every state, without a slot and without a count.
pub Reached-Bounded :
    (cap callers : ℕ) (s : Sink)
    → (new cap callers).cap + callers < 2 ^ 64
    → Reached cap callers s
    → Bounded cap callers s × Passes s
unfolding begin_admit
Reached-Bounded cap callers s h r = (bounded cap callers s h r, (refl, refl, refl, refl, refl))
