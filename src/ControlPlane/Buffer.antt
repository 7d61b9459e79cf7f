-- ===== src/ControlPlane/Buffer.antt =====
-- The offline buffer, waddle-core/crates/waddle-controlplane/src/buffer.rs.
pub mod Replay
use waddle_sdk.Prelude.{ℕ, ◌+◌, ◌%◌, ◌^◌, Bool, List, [], ◌∷◌, length, ltb, leb, if◌then◌else◌}
use waddle_sdk.Prelude.Recent.{is_full, push_bounded}

pub record OfflineBuffer (A : Type 0) : Type 0 where
  pub items : List A
  pub capacity : ℕ
  pub dropped : ℕ

module _ {A : Type 0} where
  unfoldable pub new : ℕ → OfflineBuffer A
  new capacity = record {
    items = [];
    capacity = if ltb capacity 1 then 1 else capacity;
    dropped = 0;
  }

  unfoldable pub push : OfflineBuffer A → A → OfflineBuffer A × Bool
  push b item =
      let full = is_full b.capacity b.items in
      (
        record b {
          items = push_bounded b.capacity item b.items;
          dropped = if full then (b.dropped + 1) % 2 ^ 64 else b.dropped;
        },
        full,
      )

  -- Everything, in arrival order; the buffer is left empty.
  unfoldable pub drain : OfflineBuffer A → List A × OfflineBuffer A
  drain b = (b.items, record b { items = [] })

  unfoldable pub len : OfflineBuffer A → ℕ
  len b = length b.items
