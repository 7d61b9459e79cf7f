-- ===== src/ControlPlane/Client/Offline.antt =====
-- What the offline buffer of client.rs keeps while it fills.
use waddle_sdk.Prelude.{
  ◌≡◌, refl, ◌&&◌, Bool, true, false, not, Option, none, some, List, [], ◌∷◌, ◌++◌, String, is_none,
  inl, inr, Bool-cases,
}
use waddle_sdk.Prelude.Recent.{is_full, drop}
use waddle_sdk.ControlPlane.Buffer.{OfflineBuffer, push}
use waddle_sdk.ControlPlane.Messages.{ClientMsg, buffer_when_offline}
use waddle_sdk.ControlPlane.Client.{is_legal, buffer_offline, buffer_pending}

pub kept_flag :
    (droppable : Bool) (flag : Option String) (flags : List String)
    → (not droppable && is_none flag) ≡ true
    → is_legal flags flag ≡ true
kept_flag true flag flags h = cc
kept_flag false none flags h = refl
kept_flag false (some f) flags h = cc

module _ {M : Type 0} where
  -- Every message of a row is one that the offline buffer keeps.
  abbrev pub Kept : List (ClientMsg M) → Type 0
  Kept [] = Unit
  Kept (m ∷ ms) = (buffer_when_offline m ≡ true) × Kept ms

  Kept-append :
      (ms : List (ClientMsg M)) (m : ClientMsg M)
      → buffer_when_offline m ≡ true
      → Kept ms
      → Kept (ms ++ m ∷ [])
  Kept-append [] m e h = (e, tt)
  Kept-append (x ∷ ms) m e h = (h.0, Kept-append ms m e h.1)

  Kept-drop : (ms : List (ClientMsg M)) → Kept ms → Kept (drop 1 ms)
  Kept-drop [] h = tt
  Kept-drop (m ∷ ms) h = h.1

  pub Kept-buffer_offline :
      (b : OfflineBuffer (ClientMsg M)) (m : ClientMsg M)
      → Kept b.items
      → Kept (buffer_offline b m).items
  unfolding buffer_offline push
  Kept-buffer_offline b m h = elim (Bool-cases (buffer_when_offline m)) [
    | inr n ↦ rw n h
    | inl y ↦ rw y (elim (Bool-cases (is_full b.capacity b.items)) [
      | inl full ↦ rw full (Kept-append (drop 1 b.items) m y (Kept-drop b.items h))
      | inr free ↦ rw free (Kept-append b.items m y h)
    ])
  ]

  pub Kept-buffer_pending :
      (b : OfflineBuffer (ClientMsg M)) (ms : List (ClientMsg M))
      → Kept b.items
      → Kept (buffer_pending b ms).items
  unfolding buffer_pending
  Kept-buffer_pending b [] h = h
  Kept-buffer_pending b (m ∷ ms) h =
      Kept-buffer_pending (buffer_offline b m) ms (Kept-buffer_offline b m h)
