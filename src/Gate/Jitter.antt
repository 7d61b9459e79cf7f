-- ===== src/Gate/Jitter.antt =====
-- The jitter buffer, waddle-core/crates/waddle-gate/src/jitter.rs.
pub mod Order
pub mod Playout
pub mod Replan
use waddle_sdk.Prelude.{
  ℕ, ◌+◌, ◌%◌, ◌^◌, Bool, true, false, ◌&&◌, ◌||◌, not, Option, none, some, List, [], ◌∷◌, leb,
  if◌then◌else◌,
}
use waddle_sdk.Prelude.Int.{ℤ, pos, ltb_ℤ, max_ℤ}
use waddle_sdk.Prelude.Ordered.{insert, remove}
use waddle_sdk.Outcome.{Outcome, done, expect, ◌>>=◌}
use waddle_sdk.Types.Time.{MonoNs}
use waddle_sdk.Types.Wrapping.{add_i64}
use waddle_sdk.Types.Chunking.{ReplanPolicy}
use waddle_sdk.Gate.Action.{OwnedAction, StreamChannel, ChunkMeta, TimedAction}

-- `u64` counters.
abbrev pub u64 : ℕ → ℕ
u64 n = n % 2 ^ 64

pub record ChannelState (F : Type 0) : Type 0 where
  pub pending : List (ℕ × TimedAction F)
  pub last_popped_seq : Option ℕ
  pub active_chunk : Option ChunkMeta

pub record JitterBuffer (F : Type 0) : Type 0 where
  pub playout_delay_ns : ℤ
  pub agent_chunk_replan : ReplanPolicy
  pub teleop : ChannelState F
  pub agent_chunk : ChannelState F
  pub dropped_late : ℕ
  pub dropped_stale_chunks : ℕ

-- What an arrival's chunk is to the one that executes on its channel.
pub data Transition : Type 0 where
  same stale replan : Transition

abbrev eqb_ℤ : ℤ → ℤ → Bool
eqb_ℤ a b = not (ltb_ℤ a b) && not (ltb_ℤ b a)

abbrev pub same_chunk : ChunkMeta → ChunkMeta → Bool
same_chunk a b =
    leb a.chunk_seq b.chunk_seq
    && leb b.chunk_seq a.chunk_seq
    && eqb_ℤ a.t_emitted_ns b.t_emitted_ns

abbrev pub is_stale : ChunkMeta → ChunkMeta → Bool
is_stale active meta =
    leb meta.chunk_seq active.chunk_seq
    || (not (eqb_ℤ meta.t_emitted_ns (pos 0))
        && not (eqb_ℤ active.t_emitted_ns (pos 0))
        && not (ltb_ℤ active.t_emitted_ns meta.t_emitted_ns))

unfoldable pub transition : Option ChunkMeta → ChunkMeta → Transition
transition none meta = Transition.replan
transition (some active) meta =
    if same_chunk active meta
    then Transition.same
    else if is_stale active meta
    then Transition.stale
    else Transition.replan

abbrev pub replaces : ReplanPolicy → Bool
replaces ReplanPolicy.immediate = true
replaces ReplanPolicy.blend = true
replaces ReplanPolicy.chunk_boundary = false

-- At or before the channel's playout cursor.
abbrev pub is_late : Option ℕ → ℕ → Bool
is_late none seq = false
is_late (some last) seq = leb seq last

abbrev pub arrived_before : MonoNs → Option (StreamChannel × ℕ × MonoNs) → Bool
arrived_before received none = true
arrived_before received (some best) = ltb_ℤ received best.2

module _ {F : Type 0} where
  abbrev pub fresh : ChannelState F
  fresh = record { pending = []; last_popped_seq = none; active_chunk = none }

  unfoldable pub new : ℤ → ReplanPolicy → JitterBuffer F
  new playout_delay_ns agent_chunk_replan = record {
    playout_delay_ns = max_ℤ playout_delay_ns (pos 0);
    agent_chunk_replan = agent_chunk_replan;
    teleop = fresh;
    agent_chunk = fresh;
    dropped_late = 0;
    dropped_stale_chunks = 0;
  }

  abbrev pub state : JitterBuffer F → StreamChannel → ChannelState F
  state b StreamChannel.teleop = b.teleop
  state b StreamChannel.agent_chunk = b.agent_chunk

  -- A write through `state_mut`.
  abbrev pub set_state : JitterBuffer F → StreamChannel → ChannelState F → JitterBuffer F
  set_state b StreamChannel.teleop s = record b { teleop = s }
  set_state b StreamChannel.agent_chunk s = record b { agent_chunk = s }

  unfoldable pub admit : JitterBuffer F → TimedAction F → JitterBuffer F
  unfolding insert
  admit b a =
      let s = state b a.channel in
      if is_late s.last_popped_seq a.seq
      then record b { dropped_late = u64 (b.dropped_late + 1) }
      else set_state b a.channel (record s { pending = insert a.seq a s.pending })

  -- The declared policy, at a chunk boundary.
  unfoldable pub apply_replan : JitterBuffer F → StreamChannel → ChunkMeta → JitterBuffer F
  apply_replan b channel meta =
      let s = state b channel in
      set_state b channel (record s {
        pending = if replaces b.agent_chunk_replan then [] else s.pending;
        active_chunk = some meta;
      })

  -- A step of the chunk `meta`.
  unfoldable pub take_step :
      JitterBuffer F → TimedAction F → ChunkMeta → Transition → JitterBuffer F
  unfolding admit apply_replan
  take_step b a meta Transition.same = admit b a
  take_step b a meta Transition.stale = record b {
    dropped_stale_chunks = u64 (b.dropped_stale_chunks + 1);
  }
  take_step b a meta Transition.replan = admit (apply_replan b a.channel meta) a

  unfoldable pub ingest : JitterBuffer F → TimedAction F → JitterBuffer F
  unfolding transition admit take_step
  ingest b a = elim a.chunk [
    | none ↦ admit b a
    | some meta ↦ take_step b a meta (transition (state b a.channel).active_chunk meta)
  ]

  -- `head.received.0 + playout_delay_ns <= now.0`.
  abbrev pub is_due : ℤ → MonoNs → TimedAction F → Bool
  is_due delay now head = not (ltb_ℤ now (add_i64 head.received delay))

  -- One round of `pop_due`'s loop over the channels.
  unfoldable pub better :
      ℤ
      → MonoNs
      → StreamChannel
      → List (ℕ × TimedAction F)
      → Option (StreamChannel × ℕ × MonoNs)
      → Option (StreamChannel × ℕ × MonoNs)
  better delay now channel [] best = best
  better delay now channel ((seq, head) ∷ rest) best =
      if is_due delay now head && arrived_before head.received best
      then some (channel, seq, head.received)
      else best

  unfoldable pub choose : JitterBuffer F → MonoNs → Option (StreamChannel × ℕ × MonoNs)
  unfolding better
  choose b now =
      better b.playout_delay_ns now StreamChannel.agent_chunk b.agent_chunk.pending
        (better b.playout_delay_ns now StreamChannel.teleop b.teleop.pending none)

  -- The first key of the chosen channel leaves its map and becomes the cursor.
  unfoldable pub pop_best :
      JitterBuffer F
      → Option (StreamChannel × ℕ × MonoNs)
      → Outcome (JitterBuffer F × Option (OwnedAction F))
  unfolding remove
  pop_best b none = done (b, none)
  pop_best b (some (channel, seq, received)) =
      let s = state b channel in
      let removed = remove seq s.pending in
      do
        a ← expect removed.0 "first key exists"
        done (
          set_state b channel (record s { pending = removed.1; last_popped_seq = some seq }),
          some a.action,
        )

  unfoldable pub pop_due :
      JitterBuffer F → MonoNs → Outcome (JitterBuffer F × Option (OwnedAction F))
  unfolding choose pop_best
  pop_due b now = pop_best b (choose b now)

  abbrev drained : ChannelState F → ChannelState F
  drained s = record s { pending = []; active_chunk = none }

  unfoldable pub clear_pending : JitterBuffer F → JitterBuffer F
  clear_pending b = record b { teleop = drained b.teleop; agent_chunk = drained b.agent_chunk }
