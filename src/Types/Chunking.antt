-- ===== src/Types/Chunking.antt =====
-- The chunking semantics of waddle-core/crates/waddle-types/src/space.rs.

pub data ReplanPolicy : Type 0 where
  immediate chunk_boundary blend : ReplanPolicy

pub data Interp : Type 0 where
  hold linear cubic : Interp
