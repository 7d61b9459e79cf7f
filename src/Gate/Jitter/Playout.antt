-- ===== src/Gate/Jitter/Playout.antt =====
-- Histories of the jitter buffer of waddle-core/crates/waddle-gate/src/jitter.rs: arrivals, pops
-- and clearings in any order.
use waddle_sdk.Prelude.{
  ℕ, suc, ◌≤◌, ◌≡◌, Bool, true, false, refl, subst, Option, none, some, List, [], ◌∷◌,
  if◌then◌else◌, arith,
}
use waddle_sdk.Prelude.Int.{ℤ}
use waddle_sdk.Prelude.Ordered.{leb_refl}
use waddle_sdk.Outcome.{Outcome, done}
use waddle_sdk.Types.Time.{MonoNs}
use waddle_sdk.Types.Chunking.{ReplanPolicy}
use waddle_sdk.Gate.Action.{OwnedAction, StreamChannel, ChunkMeta, TimedAction}
use waddle_sdk.Gate.Jitter.{
  JitterBuffer, new, state, ingest, choose, pop_best, pop_due, clear_pending,
}
use waddle_sdk.Gate.Jitter.Order.{
  next_seq, Ordered, new-Ordered, clear_pending-Ordered, ingest-Ordered, Choice, chosen,
  with_pending,
}

pub data BufferOp (F : Type 0) : Type 0 where
  arrive : TimedAction F → BufferOp F
  pop : MonoNs → BufferOp F
  clear : BufferOp F

abbrev same_channel : StreamChannel → StreamChannel → Bool
same_channel StreamChannel.teleop StreamChannel.teleop = true
same_channel StreamChannel.agent_chunk StreamChannel.agent_chunk = true
same_channel _ _ = false

abbrev played_on : StreamChannel → Option (StreamChannel × ℕ × MonoNs) → List ℕ → List ℕ
played_on channel none rest = rest
played_on channel (some (c, seq, received)) rest =
    if same_channel c channel then seq ∷ rest else rest

-- Ascending, with every number at least `lo`.
abbrev pub Rising : ℕ → List ℕ → Type 0
Rising lo [] = Unit
Rising lo (n ∷ ns) = (lo ≤ n) × Rising (suc n) ns

module _ {F : Type 0} where
  abbrev pub after :
      JitterBuffer F → Outcome (JitterBuffer F × Option (OwnedAction F)) → JitterBuffer F
  after b (done r) = r.0
  after b _ = b

  -- The sequence numbers that a history plays on a channel, in the order of the pops.
  unfoldable pub played_seqs : StreamChannel → JitterBuffer F → List (BufferOp F) → List ℕ
  unfolding ingest choose pop_due clear_pending
  played_seqs channel b [] = []
  played_seqs channel b (BufferOp.arrive a ∷ ops) = played_seqs channel (ingest b a) ops
  played_seqs channel b (BufferOp.pop now ∷ ops) =
      played_on channel (choose b now) (played_seqs channel (after b (pop_due b now)) ops)
  played_seqs channel b (BufferOp.clear ∷ ops) = played_seqs channel (clear_pending b) ops

  -- What is left to play, whatever the buffer is then.
  abbrev RestRises : StreamChannel → (JitterBuffer F → List ℕ) → Type 0
  RestRises channel rest =
      (d : JitterBuffer F)
      → Ordered d
      → Rising (next_seq (state d channel).last_popped_seq) (rest d)

  abbrev PopRises :
      StreamChannel
      → (JitterBuffer F → List ℕ)
      → JitterBuffer F
      → Option (StreamChannel × ℕ × MonoNs)
      → Type 0
  PopRises channel rest b best =
      Rising (next_seq (state b channel).last_popped_seq)
        (played_on channel best (rest (after b (pop_best b best))))

  pop_rises :
      (channel : StreamChannel) (rest : JitterBuffer F → List ℕ) (b : JitterBuffer F) (delay : ℤ)
      (now : MonoNs) (t g : List (ℕ × TimedAction F)) (best : Option (StreamChannel × ℕ × MonoNs))
      → Choice delay now t g best
      → Ordered (with_pending b t g)
      → RestRises channel rest
      → PopRises channel rest (with_pending b t g) best
  unfolding pop_best
  pop_rises channel rest b delay now t g none c o h = h (with_pending b t g) o
  pop_rises channel rest b delay now [] g (some (StreamChannel.teleop, seq, received)) c o h =
      absurd c
  pop_rises channel rest b delay now t [] (some (StreamChannel.agent_chunk, seq, received)) c o h =
      absurd c
  pop_rises StreamChannel.teleop rest b delay now ((k, a) ∷ t) g
        (some (StreamChannel.teleop, seq, received)) c o h =
      subst
        (λ q.
          PopRises StreamChannel.teleop rest (with_pending b ((k, a) ∷ t) g)
            (some (StreamChannel.teleop, q, received)))
        c.0
        (rw (leb_refl k)
          (o.teleop.0, h _ (record { teleop = o.teleop.1; agent_chunk = o.agent_chunk })))
  pop_rises StreamChannel.agent_chunk rest b delay now ((k, a) ∷ t) g
        (some (StreamChannel.teleop, seq, received)) c o h =
      subst
        (λ q.
          PopRises StreamChannel.agent_chunk rest (with_pending b ((k, a) ∷ t) g)
            (some (StreamChannel.teleop, q, received)))
        c.0 (rw (leb_refl k) (h _ (record { teleop = o.teleop.1; agent_chunk = o.agent_chunk })))
  pop_rises StreamChannel.agent_chunk rest b delay now t ((k, a) ∷ g)
        (some (StreamChannel.agent_chunk, seq, received)) c o h =
      subst
        (λ q.
          PopRises StreamChannel.agent_chunk rest (with_pending b t ((k, a) ∷ g))
            (some (StreamChannel.agent_chunk, q, received)))
        c.0
        (rw (leb_refl k)
          (o.agent_chunk.0, h _ (record { teleop = o.teleop; agent_chunk = o.agent_chunk.1 })))
  pop_rises StreamChannel.teleop rest b delay now t ((k, a) ∷ g)
        (some (StreamChannel.agent_chunk, seq, received)) c o h =
      subst
        (λ q.
          PopRises StreamChannel.teleop rest (with_pending b t ((k, a) ∷ g))
            (some (StreamChannel.agent_chunk, q, received)))
        c.0 (rw (leb_refl k) (h _ (record { teleop = o.teleop; agent_chunk = o.agent_chunk.1 })))

  -- An arrival moves no cursor.
  arrived :
      (channel c : StreamChannel) (b : JitterBuffer F) (a : TimedAction F)
      (chunk : Option ChunkMeta)
      → (state (ingest b (record a { channel = c; chunk = chunk })) channel).last_popped_seq
        ≡ (state b channel).last_popped_seq
  unfolding ingest
  arrived StreamChannel.teleop StreamChannel.teleop b a chunk = ground arith
  arrived StreamChannel.teleop StreamChannel.agent_chunk b a chunk = ground arith
  arrived StreamChannel.agent_chunk StreamChannel.teleop b a chunk = ground arith
  arrived StreamChannel.agent_chunk StreamChannel.agent_chunk b a chunk = ground arith

  cleared :
      (channel : StreamChannel) (b : JitterBuffer F)
      → (state (clear_pending b) channel).last_popped_seq ≡ (state b channel).last_popped_seq
  unfolding clear_pending
  cleared StreamChannel.teleop b = refl
  cleared StreamChannel.agent_chunk b = refl

  rises :
      (channel : StreamChannel) (ops : List (BufferOp F))
      → RestRises channel (λ b. played_seqs channel b ops)
  unfolding played_seqs pop_due
  rises channel [] b o = tt
  rises channel (BufferOp.arrive a ∷ ops) b o =
      subst (λ last. Rising (next_seq last) (played_seqs channel (ingest b a) ops))
        (arrived channel a.channel b a a.chunk)
        (rises channel ops (ingest b a) (ingest-Ordered b a o))
  rises channel (BufferOp.pop now ∷ ops) b o =
      pop_rises channel (λ d. played_seqs channel d ops) b b.playout_delay_ns now b.teleop.pending
        b.agent_chunk.pending (choose b now)
        (chosen b.playout_delay_ns now b.teleop.pending b.agent_chunk.pending) o (rises channel ops)
  rises channel (BufferOp.clear ∷ ops) b o =
      subst (λ last. Rising (next_seq last) (played_seqs channel (clear_pending b) ops))
        (cleared channel b) (rises channel ops (clear_pending b) (clear_pending-Ordered b o))

  -- A late step is never played: through every history of arrivals, pops and clearings of a new
  -- buffer, the sequence numbers that a channel plays strictly increase, whatever arrives on the
  -- other channel.
  pub played_seqs-Rising :
      (channel : StreamChannel) (delay : ℤ) (replan : ReplanPolicy) (ops : List (BufferOp F))
      → Rising 0 (played_seqs channel (new delay replan) ops)
  unfolding new
  played_seqs-Rising StreamChannel.teleop delay replan ops =
      rises StreamChannel.teleop ops (new delay replan) (new-Ordered delay replan)
  played_seqs-Rising StreamChannel.agent_chunk delay replan ops =
      rises StreamChannel.agent_chunk ops (new delay replan) (new-Ordered delay replan)
