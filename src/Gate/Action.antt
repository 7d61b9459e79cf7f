-- ===== src/Gate/Action.antt =====
-- `OwnedAction` of gate.rs, and the arrivals of jitter.rs, in waddle-core/crates/waddle-gate/src.
-- `F` stands for `f64`.
use waddle_sdk.Prelude.{ℕ, Option, List, String}
use waddle_sdk.Prelude.Int.{ℤ}
use waddle_sdk.Types.Time.{MonoNs}

pub record OwnedAction (F : Type 0) : Type 0 where
  pub values : List F
  pub velocity_feedforward : Option (List F)
  pub gripper : Option F
  pub part : Option String

pub data StreamChannel : Type 0 where
  teleop agent_chunk : StreamChannel

pub record ChunkMeta : Type 0 where
  pub chunk_seq : ℕ
  pub t_emitted_ns : ℤ

pub record TimedAction (F : Type 0) : Type 0 where
  pub channel : StreamChannel
  pub seq : ℕ
  pub received : MonoNs
  pub action : OwnedAction F
  pub chunk : Option ChunkMeta
