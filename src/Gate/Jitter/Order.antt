-- ===== src/Gate/Jitter/Order.antt =====
-- The playout order of the jitter buffer.
use waddle_sdk.Prelude.{
  ℕ, suc, ◌≤◌, ◌≡◌, Bool, true, false, refl, sym, subst, Option, none, some, List, [], ◌∷◌, arith,
  if◌then◌else◌, of_branches, ◌⊎◌, inl, inr,
}
use waddle_sdk.Prelude.Int.{ℤ, ltb_ℤ}
use waddle_sdk.Prelude.Ordered.{AscendingFrom, insert-AscendingFrom, insert, leb_refl}
use waddle_sdk.Outcome.{Outcome, done, rejected, panicked}
use waddle_sdk.Types.Time.{MonoNs}
use waddle_sdk.Types.Chunking.{ReplanPolicy}
use waddle_sdk.Gate.Action.{OwnedAction, StreamChannel, ChunkMeta, TimedAction}
use waddle_sdk.Gate.Jitter.{
  ChannelState, JitterBuffer, Transition, new, state, set_state, admit, apply_replan, ingest,
  is_due, better, choose, pop_best, pop_due, clear_pending, is_late, take_step, replaces,
}

-- The least sequence number that the channel's cursor still lets through.
abbrev pub next_seq : Option ℕ → ℕ
next_seq none = 0
next_seq (some last) = suc last

module _ {F : Type 0} where
  abbrev pub IsOrdered : ChannelState F → Type 0
  IsOrdered s = AscendingFrom (next_seq s.last_popped_seq) s.pending

  pub record Ordered (b : JitterBuffer F) : Type 0 where
    pub teleop : IsOrdered b.teleop
    pub agent_chunk : IsOrdered b.agent_chunk

  pub new-Ordered : (delay : ℤ) (replan : ReplanPolicy) → Ordered (new delay replan)
  unfolding new
  new-Ordered delay replan = record { teleop = tt; agent_chunk = tt }

  pub clear_pending-Ordered : (b : JitterBuffer F) → Ordered b → Ordered (clear_pending b)
  unfolding clear_pending
  clear_pending-Ordered b o = record { teleop = tt; agent_chunk = tt }

  admitted :
      (s : ChannelState F) (seq : ℕ) (a : TimedAction F)
      → is_late s.last_popped_seq seq ≡ false
      → IsOrdered s
      → AscendingFrom (next_seq s.last_popped_seq) (insert seq a s.pending)
  admitted s seq a l o = insert-AscendingFrom _ seq a s.pending (in_time s.last_popped_seq l) o
    where
      in_time : (last : Option ℕ) → is_late last seq ≡ false → next_seq last ≤ seq
      in_time none h = omega arith
      in_time (some n) h = ground arith

  at_channel :
      (b : JitterBuffer F) (channel : StreamChannel) → Ordered b → IsOrdered (state b channel)
  at_channel b StreamChannel.teleop o = o.teleop
  at_channel b StreamChannel.agent_chunk o = o.agent_chunk

  set_state-Ordered :
      (b : JitterBuffer F) (channel : StreamChannel) (s : ChannelState F)
      → Ordered b
      → IsOrdered s
      → Ordered (set_state b channel s)
  set_state-Ordered b StreamChannel.teleop s o h = record {
    teleop = h;
    agent_chunk = o.agent_chunk;
  }
  set_state-Ordered b StreamChannel.agent_chunk s o h = record {
    teleop = o.teleop;
    agent_chunk = h;
  }

  admit-Ordered : (b : JitterBuffer F) (a : TimedAction F) → Ordered b → Ordered (admit b a)
  unfolding admit
  admit-Ordered b a o =
      of_branches Ordered (is_late (state b a.channel).last_popped_seq a.seq) _ _
        (λ _. record { teleop = o.teleop; agent_chunk = o.agent_chunk })
        λ n.
          set_state-Ordered b a.channel _ o
            (admitted (state b a.channel) a.seq a n (at_channel b a.channel o))

  emptied :
      (s : ChannelState F) (meta : ChunkMeta) (drop : Bool)
      → IsOrdered s
      → IsOrdered (record s { pending = if drop then [] else s.pending; active_chunk = some meta })
  emptied s meta true o = tt
  emptied s meta false o = o

  apply_replan-Ordered :
      (b : JitterBuffer F) (channel : StreamChannel) (meta : ChunkMeta)
      → Ordered b
      → Ordered (apply_replan b channel meta)
  unfolding apply_replan
  apply_replan-Ordered b channel meta o =
      set_state-Ordered b channel _ o
        (emptied (state b channel) meta (replaces b.agent_chunk_replan) (at_channel b channel o))

  by_transition :
      (b : JitterBuffer F) (a : TimedAction F) (meta : ChunkMeta) (t : Transition)
      → Ordered b
      → Ordered (take_step b a meta t)
  unfolding take_step
  by_transition b a meta Transition.same o = admit-Ordered b a o
  by_transition b a meta Transition.stale o = record {
    teleop = o.teleop;
    agent_chunk = o.agent_chunk;
  }
  by_transition b a meta Transition.replan o =
      admit-Ordered (apply_replan b a.channel meta) a (apply_replan-Ordered b a.channel meta o)

  by_chunk :
      (b : JitterBuffer F) (a : TimedAction F) (chunk : Option ChunkMeta)
      → Ordered b
      → Ordered (ingest b (record a { chunk = chunk }))
  unfolding ingest
  by_chunk b a none o = admit-Ordered b (record a { chunk = none }) o
  by_chunk b a (some meta) o = by_transition b (record a { chunk = some meta }) meta _ o

  pub ingest-Ordered : (b : JitterBuffer F) (a : TimedAction F) → Ordered b → Ordered (ingest b a)
  ingest-Ordered b a o = by_chunk b a a.chunk o

-- What a pop may do: play the first arrival of a channel, which is due and not later than a due one
-- of the other channel, or nothing where no first arrival is due.
module _ {F : Type 0} (delay : ℤ) (now : MonoNs) where
  abbrev pub NoneDue : List (ℕ × TimedAction F) → Type 0
  NoneDue [] = Unit
  NoneDue ((seq, head) ∷ rest) = is_due delay now head ≡ false

  abbrev pub NoneSooner : MonoNs → List (ℕ × TimedAction F) → Type 0
  NoneSooner received [] = Unit
  NoneSooner received ((seq, head) ∷ rest) =
      is_due delay now head ≡ true → ltb_ℤ head.received received ≡ false

  abbrev pub PlaysHead :
      ChannelState F
      → ChannelState F
      → (ChannelState F → JitterBuffer F)
      → JitterBuffer F
      → OwnedAction F
      → List (ℕ × TimedAction F)
      → Type 0
  PlaysHead mine other put d act [] = ⊥
  PlaysHead mine other put d act ((seq, head) ∷ rest) =
      (is_due delay now head ≡ true)
      × NoneSooner head.received other.pending
      × (act ≡ head.action)
      × (d ≡ put (record mine { pending = rest; last_popped_seq = some seq }))

  -- What `choose` may find.
  abbrev pub Fits : List (ℕ × TimedAction F) → List (ℕ × TimedAction F) → ℕ → MonoNs → Type 0
  Fits [] other seq received = ⊥
  Fits ((k, head) ∷ rest) other seq received =
      (k ≡ seq)
      × (head.received ≡ received)
      × (is_due delay now head ≡ true)
      × NoneSooner received other

  abbrev pub Choice :
      List (ℕ × TimedAction F)
      → List (ℕ × TimedAction F)
      → Option (StreamChannel × ℕ × MonoNs)
      → Type 0
  Choice t g none = NoneDue t × NoneDue g
  Choice t g (some (StreamChannel.teleop, seq, received)) = Fits t g seq received
  Choice t g (some (StreamChannel.agent_chunk, seq, received)) = Fits g t seq received

  pub chosen :
      (t g : List (ℕ × TimedAction F))
      → Choice t g (
          better delay now StreamChannel.agent_chunk g
            (better delay now StreamChannel.teleop t none))
  unfolding better
  chosen [] [] = (tt, tt)
  chosen [] ((k, h) ∷ g) = ground arith
  chosen ((k, h) ∷ t) [] = ground arith
  chosen ((k, h) ∷ t) ((j, i) ∷ g) = ground arith

module _ {F : Type 0} where
  abbrev pub PlaysDue :
      JitterBuffer F → MonoNs → Outcome (JitterBuffer F × Option (OwnedAction F)) → Type 0
  PlaysDue b now (done (d, none)) =
      (d ≡ b)
      × NoneDue b.playout_delay_ns now b.teleop.pending
      × NoneDue b.playout_delay_ns now b.agent_chunk.pending
  PlaysDue b now (done (d, some act)) =
      PlaysHead b.playout_delay_ns now b.teleop b.agent_chunk (λ s. record b { teleop = s }) d act
        b.teleop.pending
      ⊎ PlaysHead b.playout_delay_ns now b.agent_chunk b.teleop (λ s. record b { agent_chunk = s })
          d act b.agent_chunk.pending
  PlaysDue b now (rejected reason) = ⊥
  PlaysDue b now (panicked m) = ⊥

  abbrev pub with_pending :
      JitterBuffer F → List (ℕ × TimedAction F) → List (ℕ × TimedAction F) → JitterBuffer F
  with_pending b t g = record b {
    teleop = record (b.teleop) { pending = t };
    agent_chunk = record (b.agent_chunk) { pending = g };
  }

  played :
      (b : JitterBuffer F) (now : MonoNs) (t g : List (ℕ × TimedAction F))
      (best : Option (StreamChannel × ℕ × MonoNs))
      → Choice b.playout_delay_ns now t g best
      → PlaysDue (with_pending b t g) now (pop_best (with_pending b t g) best)
  unfolding pop_best
  played b now t g none c = (refl, c.0, c.1)
  played b now [] g (some (StreamChannel.teleop, seq, received)) c = absurd c
  played b now ((k, h) ∷ t) g (some (StreamChannel.teleop, seq, received)) c =
      subst
        (λ q.
          PlaysDue (with_pending b ((k, h) ∷ t) g) now
            (pop_best (with_pending b ((k, h) ∷ t) g) (some (StreamChannel.teleop, q, received))))
        c.0
        (rw (leb_refl k)
          (inl (c.2, subst (λ r. NoneSooner b.playout_delay_ns now r g) (sym c.1) c.3, refl, refl)))
  played b now t [] (some (StreamChannel.agent_chunk, seq, received)) c = absurd c
  played b now t ((k, h) ∷ g) (some (StreamChannel.agent_chunk, seq, received)) c =
      subst
        (λ q. PlaysDue (with_pending b t ((k, h) ∷ g)) now (
          pop_best (with_pending b t ((k, h) ∷ g)) (some (StreamChannel.agent_chunk, q, received))))
        c.0
        (rw (leb_refl k)
          (inr (c.2, subst (λ r. NoneSooner b.playout_delay_ns now r t) (sym c.1) c.3, refl, refl)))

  -- A pop never panics. It plays nothing, and changes nothing, exactly where neither channel's first
  -- arrival is due; otherwise it plays the first arrival of one channel, which is due and was not
  -- received later than a due first arrival of the other, takes it off that channel, and moves that
  -- channel's cursor to it.
  pub pop_due-PlaysDue : (b : JitterBuffer F) (now : MonoNs) → PlaysDue b now (pop_due b now)
  unfolding pop_due
  pop_due-PlaysDue b now =
      played b now b.teleop.pending b.agent_chunk.pending (choose b now)
        (chosen b.playout_delay_ns now b.teleop.pending b.agent_chunk.pending)
