-- ===== src/Gate/Jitter/Replan.antt =====
-- Chunks that replace each other in the jitter buffer of waddle-core/crates/waddle-gate/src/jitter.rs.
use waddle_sdk.Prelude.{
  ℕ, ◌≡◌, Bool, true, false, refl, ap, subst, Option, none, some, List, [], ◌∷◌, if◌then◌else◌,
  of_branches, arith,
}
use waddle_sdk.Prelude.Int.{ℤ, eq_of_parts}
use waddle_sdk.Prelude.Ordered.{EveryValue, insert-EveryValue, leb_refl}
use waddle_sdk.Types.Time.{MonoNs}
use waddle_sdk.Types.Chunking.{ReplanPolicy}
use waddle_sdk.Gate.Action.{StreamChannel, ChunkMeta, TimedAction}
use waddle_sdk.Gate.Jitter.{
  ChannelState, JitterBuffer, Transition, new, state, set_state, admit, apply_replan, take_step,
  ingest, transition, choose, pop_best, pop_due, clear_pending, replaces, same_chunk, is_late,
}
use waddle_sdk.Gate.Jitter.Order.{Choice, chosen, with_pending}
use waddle_sdk.Gate.Jitter.Playout.{BufferOp, after}

-- A step of no chunk, or of the chunk that executes.
abbrev pub OfActive : Option ChunkMeta → Option ChunkMeta → Type 0
OfActive active none = Unit
OfActive active (some meta) = active ≡ some meta

same_chunk_eq : (a b : ChunkMeta) → same_chunk a b ≡ true → some a ≡ some b
same_chunk_eq a b h = ap some (ground (arith, eq_of_parts a.t_emitted_ns b.t_emitted_ns))

same_active :
    (active : Option ChunkMeta) (meta : ChunkMeta)
    → transition active meta ≡ Transition.same
    → active ≡ some meta
unfolding transition
same_active none meta h = cc h
same_active (some a) meta h = ground (arith, same_chunk_eq a meta)

module _ {F : Type 0} where
  abbrev pub OneChunk : ChannelState F → Type 0
  OneChunk s = EveryValue (λ a. OfActive s.active_chunk a.chunk) s.pending

  pub record OnlyActive (b : JitterBuffer F) : Type 0 where
    pub policy : replaces b.agent_chunk_replan ≡ true
    pub teleop : OneChunk b.teleop
    pub agent_chunk : OneChunk b.agent_chunk

  at_channel :
      (b : JitterBuffer F) (channel : StreamChannel) → OnlyActive b → OneChunk (state b channel)
  at_channel b StreamChannel.teleop o = o.teleop
  at_channel b StreamChannel.agent_chunk o = o.agent_chunk

  set_state-OnlyActive :
      (b : JitterBuffer F) (channel : StreamChannel) (s : ChannelState F)
      → OnlyActive b
      → OneChunk s
      → OnlyActive (set_state b channel s)
  set_state-OnlyActive b StreamChannel.teleop s o h = record {
    policy = o.policy;
    teleop = h;
    agent_chunk = o.agent_chunk;
  }
  set_state-OnlyActive b StreamChannel.agent_chunk s o h = record {
    policy = o.policy;
    teleop = o.teleop;
    agent_chunk = h;
  }

  admit-OnlyActive :
      (b : JitterBuffer F) (a : TimedAction F)
      → OfActive (state b a.channel).active_chunk a.chunk
      → OnlyActive b
      → OnlyActive (admit b a)
  unfolding admit
  admit-OnlyActive b a h o =
      of_branches OnlyActive (is_late (state b a.channel).last_popped_seq a.seq) _ _
        (λ _. record { policy = o.policy; teleop = o.teleop; agent_chunk = o.agent_chunk })
        λ _. set_state-OnlyActive b a.channel _ o (
          insert-EveryValue (λ x. OfActive (state b a.channel).active_chunk x.chunk) a.seq a
            (state b a.channel).pending h (at_channel b a.channel o))

  replaced :
      (b : JitterBuffer F) (channel : StreamChannel) (meta : ChunkMeta) (drop : Bool)
      → drop ≡ true
      → OneChunk (record (state b channel) {
        pending = if drop then [] else (state b channel).pending;
        active_chunk = some meta;
      })
  replaced b channel meta true h = tt
  replaced b channel meta false h = cc

  apply_replan-OnlyActive :
      (b : JitterBuffer F) (channel : StreamChannel) (meta : ChunkMeta)
      → OnlyActive b
      → OnlyActive (apply_replan b channel meta)
  unfolding apply_replan
  apply_replan-OnlyActive b channel meta o =
      set_state-OnlyActive b channel _ o
        (replaced b channel meta (replaces b.agent_chunk_replan) o.policy)

  applied :
      (b : JitterBuffer F) (channel : StreamChannel) (meta : ChunkMeta)
      → (state (apply_replan b channel meta) channel).active_chunk ≡ some meta
  unfolding apply_replan
  applied b StreamChannel.teleop meta = refl
  applied b StreamChannel.agent_chunk meta = refl

  by_transition :
      (b : JitterBuffer F) (a : TimedAction F) (meta : ChunkMeta) (t : Transition)
      → transition (state b a.channel).active_chunk meta ≡ t
      → OnlyActive b
      → OnlyActive (take_step b (record a { chunk = some meta }) meta t)
  unfolding take_step
  by_transition b a meta Transition.same e o =
      admit-OnlyActive b (record a { chunk = some meta }) (same_active _ meta e) o
  by_transition b a meta Transition.stale e o = record {
    policy = o.policy;
    teleop = o.teleop;
    agent_chunk = o.agent_chunk;
  }
  by_transition b a meta Transition.replan e o =
      admit-OnlyActive (apply_replan b a.channel meta) (record a { chunk = some meta })
        (applied b a.channel meta) (apply_replan-OnlyActive b a.channel meta o)

  by_chunk :
      (b : JitterBuffer F) (a : TimedAction F) (chunk : Option ChunkMeta)
      → OnlyActive b
      → OnlyActive (ingest b (record a { chunk = chunk }))
  unfolding ingest
  by_chunk b a none o = admit-OnlyActive b (record a { chunk = none }) tt o
  by_chunk b a (some meta) o = by_transition b a meta _ refl o

  popped :
      (b : JitterBuffer F) (delay : ℤ) (now : MonoNs) (t g : List (ℕ × TimedAction F))
      (best : Option (StreamChannel × ℕ × MonoNs))
      → Choice delay now t g best
      → OnlyActive (with_pending b t g)
      → OnlyActive (after (with_pending b t g) (pop_best (with_pending b t g) best))
  unfolding pop_best
  popped b delay now t g none c o = o
  popped b delay now [] g (some (StreamChannel.teleop, seq, received)) c o = absurd c
  popped b delay now t [] (some (StreamChannel.agent_chunk, seq, received)) c o = absurd c
  popped b delay now ((k, a) ∷ t) g (some (StreamChannel.teleop, seq, received)) c o =
      subst
        (λ q. OnlyActive (
          after (with_pending b ((k, a) ∷ t) g)
            (pop_best (with_pending b ((k, a) ∷ t) g) (some (StreamChannel.teleop, q, received)))))
        c.0
        (rw (leb_refl k)
          (record { policy = o.policy; teleop = o.teleop.1; agent_chunk = o.agent_chunk }))
  popped b delay now t ((k, a) ∷ g) (some (StreamChannel.agent_chunk, seq, received)) c o =
      subst
        (λ q. OnlyActive (
          after (with_pending b t ((k, a) ∷ g)) (
            pop_best (with_pending b t ((k, a) ∷ g))
              (some (StreamChannel.agent_chunk, q, received)))))
        c.0
        (rw (leb_refl k)
          (record { policy = o.policy; teleop = o.teleop; agent_chunk = o.agent_chunk.1 }))

  -- The buffer after a history.
  unfoldable pub buffer_after : JitterBuffer F → List (BufferOp F) → JitterBuffer F
  unfolding ingest pop_due clear_pending
  buffer_after b [] = b
  buffer_after b (BufferOp.arrive a ∷ ops) = buffer_after (ingest b a) ops
  buffer_after b (BufferOp.pop now ∷ ops) = buffer_after (after b (pop_due b now)) ops
  buffer_after b (BufferOp.clear ∷ ops) = buffer_after (clear_pending b) ops

  stays :
      (b : JitterBuffer F) (ops : List (BufferOp F))
      → OnlyActive b
      → OnlyActive (buffer_after b ops)
  unfolding buffer_after pop_due clear_pending
  stays b [] o = o
  stays b (BufferOp.arrive a ∷ ops) o = stays (ingest b a) ops (by_chunk b a a.chunk o)
  stays b (BufferOp.pop now ∷ ops) o = stays _ ops (
      popped b b.playout_delay_ns now b.teleop.pending b.agent_chunk.pending (choose b now)
        (chosen b.playout_delay_ns now b.teleop.pending b.agent_chunk.pending) o)
  stays b (BufferOp.clear ∷ ops) o =
      stays (clear_pending b) ops (record { policy = o.policy; teleop = tt; agent_chunk = tt })

  -- Under a replan policy that replaces, IMMEDIATE or BLEND, a superseded chunk leaves nothing
  -- behind: after every history of a new buffer, each arrival that waits on a channel belongs to no
  -- chunk or to the one that executes on that channel.
  pub buffer_after-OnlyActive :
      (delay : ℤ) (replan : ReplanPolicy) (ops : List (BufferOp F))
      → replaces replan ≡ true
      → OnlyActive (buffer_after (new delay replan) ops)
  unfolding new
  buffer_after-OnlyActive delay replan ops p =
      stays (new delay replan) ops (record { policy = p; teleop = tt; agent_chunk = tt })
