-- ===== src/ControlPlane/Client/Barrier.antt =====
-- What leaves on a connection of client.rs, and what its offline buffer keeps.
use waddle_sdk.Prelude.{
  ◌≡◌, refl, ℕ, zero, suc, ◌⊎◌, inl, inr, Bool, true, Option, none, some, List, [], ◌∷◌, ◌++◌,
  String, if◌then◌else◌, Bool-cases, of_branches, ltb,
}
use waddle_sdk.ControlPlane.Buffer.{OfflineBuffer, drain}
use waddle_sdk.ControlPlane.Messages.{
  ClientMsg, is_droppable, connection_scoped_flag, buffer_when_offline,
}
use waddle_sdk.ControlPlane.Client.Offline.{
  kept_flag, Kept, Kept-buffer_offline, Kept-buffer_pending,
}
use waddle_sdk.ControlPlane.Client.{
  Received, PlaneEvent, Poll, Conn, is_legal, is_accepted, report, buffer_pending, report_overflow,
  replay, replay_buffer, pump_out, pump_in, pump, joined, await_registration, opened, connect,
}

ℕ-cases : (n : ℕ) → (n ≡ 0) ⊎ ((m : ℕ) × (n ≡ suc m))
ℕ-cases zero = inl refl
ℕ-cases (suc n) = inr (n, refl)

module _ {M : Type 0} where
  -- Every message of a row may leave on a connection that accepted these flags.
  abbrev pub Legal : List String → List (ClientMsg M) → Type 0
  Legal flags [] = Unit
  Legal flags (m ∷ ms) = (is_legal flags (connection_scoped_flag m) ≡ true) × Legal flags ms

  -- The flags of the connection, if it was ever admitted.
  unfoldable pub admitted : Bool → List (Poll M) → Option (List String)
  admitted required [] = none
  admitted required (p ∷ ps) =
      let rest = admitted required ps in
      elim p.received [
        | Received.registered flags ↦ (if is_accepted required flags then some flags else none)
        | Received.nothing ↦ rest
        | _ ↦ none
      ]

  -- Nothing leaves, or the registration does first; what follows it needs an admission.
  abbrev pub Follows : Option (List String) → List (ClientMsg M) → Type 0
  Follows none ms = ms ≡ []
  Follows (some flags) ms = Legal flags ms

  abbrev pub Guarded : M → Option (List String) → Conn M → Type 0
  Guarded registration flags c =
      ((ms : List (ClientMsg M)) × (c.out ≡ ClientMsg.register registration ∷ ms)
        × Follows flags ms)
      × Kept c.buffer.items

  Legal-append :
      (flags : List String) (ms : List (ClientMsg M)) (m : ClientMsg M)
      → is_legal flags (connection_scoped_flag m) ≡ true
      → Legal flags ms
      → Legal flags (ms ++ m ∷ [])
  Legal-append flags [] m e h = (e, tt)
  Legal-append flags (x ∷ ms) m e h = (h.0, Legal-append flags ms m e h.1)

  module _ (registration : M) (flags : List String) where
    Guarded-sent :
        (c : Conn M) (n : ℕ) (m : ClientMsg M)
        → is_legal flags (connection_scoped_flag m) ≡ true
        → Guarded registration (some flags) c
        → Guarded registration (some flags) (record c { sends = n; out = c.out ++ m ∷ [] })
    Guarded-sent c n m e h =
        ((h.0.0 ++ m ∷ [], rw h.0.1 refl, Legal-append flags h.0.0 m e h.0.2), h.1)

    replay-Guarded :
        (c : Conn M) (ms : List (ClientMsg M))
        → Kept ms
        → Guarded registration (some flags) c
        → Guarded registration (some flags) (replay c ms)
    unfolding replay buffer_when_offline
    replay-Guarded c [] k h = h
    replay-Guarded c (m ∷ ms) k h = elim (ℕ-cases c.sends) [
      | inl z ↦ rw z (h.0, Kept-buffer_pending c.buffer (m ∷ ms) h.1)
      | inr s ↦ rw s.1 (
          replay-Guarded (record c { sends = s.0; out = c.out ++ m ∷ [] }) ms k.1
            (Guarded-sent c s.0 m (kept_flag (is_droppable m) (connection_scoped_flag m) flags k.0)
              h))
    ]

    pump_out-Guarded :
        (c : Conn M) (ms : List (ClientMsg M))
        → Guarded registration (some flags) c
        → Guarded registration (some flags) (pump_out flags c ms)
    unfolding pump_out
    pump_out-Guarded c [] h = h
    pump_out-Guarded c (m ∷ ms) h = elim (Bool-cases (is_legal flags (connection_scoped_flag m))) [
      | inr n ↦ rw n (pump_out-Guarded c ms h)
      | inl y ↦ elim (ℕ-cases c.sends) [
        | inl z ↦ rw (y, z) (h.0, Kept-buffer_offline c.buffer m h.1)
        | inr s ↦
            rw (y, s.1)
              (pump_out-Guarded (record c { sends = s.0; out = c.out ++ m ∷ [] }) ms
                (Guarded-sent c s.0 m y h))
      ]
    ]

    pump_in-Guarded :
        (c : Conn M) (r : Received)
        → Guarded registration (some flags) c
        → Guarded registration (some flags) (pump_in c r)
    pump_in-Guarded c (Received.registered fs) h = h
    pump_in-Guarded c _ h = h

    pump-Guarded :
        (c : Conn M) (ps : List (Poll M))
        → Guarded registration (some flags) c
        → Guarded registration (some flags) (pump flags c ps)
    unfolding pump
    pump-Guarded c [] h = h
    pump-Guarded c (p ∷ ps) h =
        let after = pump_out flags c p.commands in
        let seen = pump_in after p.received in
        let sent = pump_out-Guarded c p.commands h in
        let read = pump_in-Guarded after p.received sent in
        elim (Bool-cases after.alive) [
          | inr n ↦ rw n sent
          | inl y ↦ elim (Bool-cases seen.alive) [
            | inr n ↦ rw (y, n) read
            | inl z ↦ rw (y, z) (pump-Guarded seen ps read)
          ]
        ]

    replay_buffer-Guarded :
        (c : Conn M)
        → Guarded registration (some flags) c
        → Guarded registration (some flags) (replay_buffer c)
    unfolding replay_buffer drain
    replay_buffer-Guarded c h =
        replay-Guarded (record c { buffer = (drain c.buffer).1 }) c.buffer.items h.1 (h.0, tt)

    promoted : (c : Conn M) → Guarded registration none c → Guarded registration (some flags) c
    promoted c h = ((h.0.0, h.0.1, rw h.0.2 tt), h.1)

    joined-Guarded :
        (required : Bool) (c : Conn M) (ps : List (Poll M))
        → Guarded registration none c
        → Guarded registration
            (if is_accepted required flags then some flags else none)
            (joined required c flags ps)
    joined-Guarded required c ps h =
        let known = report c (PlaneEvent.registered flags) in
        let replayed = replay_buffer-Guarded known (promoted known h) in
        elim (Bool-cases (is_accepted required flags)) [
          | inr n ↦ rw n h
          | inl y ↦ rw y (
              of_branches (Guarded registration (some flags)) (replay_buffer known).alive
                (pump flags (replay_buffer known) ps) (replay_buffer known)
                (λ live. pump-Guarded (replay_buffer known) ps replayed) (λ gone. replayed))
        ]

  abbrev told : ℕ → Conn M → List (ClientMsg M) → Conn M
  told before c ms = report_overflow before (record c { buffer = buffer_pending c.buffer ms })

  told-Guarded :
      (registration : M) (before : ℕ) (c : Conn M) (ms : List (ClientMsg M))
      → Guarded registration none c
      → Guarded registration none (told before c ms)
  unfolding report_overflow
  told-Guarded registration before c ms h =
      let kept = buffer_pending c.buffer ms in
      elim (Bool-cases (ltb before kept.dropped)) [
        | inl y ↦ rw y (h.0, Kept-buffer_pending c.buffer ms h.1)
        | inr n ↦ rw n (h.0, Kept-buffer_pending c.buffer ms h.1)
      ]

  polled :
      (registration : M) (before : ℕ) (required : Bool) (c : Conn M) (p : Poll M)
      (ps : List (Poll M)) (r : Received)
      → p.received ≡ r
      → Guarded registration none c
      → Guarded registration (admitted required ps) (
          await_registration before required
            (record c { buffer = buffer_pending c.buffer p.commands })
            ps)
      → Guarded registration
          (admitted required (p ∷ ps))
          (await_registration before required c (p ∷ ps))
  unfolding await_registration admitted
  polled registration before required c p ps (Received.registered flags) e h rest = rw e (
      joined-Guarded registration flags required (told before c p.commands) ps
        (told-Guarded registration before c p.commands h))
  polled registration before required c p ps Received.nothing e h rest = rw e rest
  polled registration before required c p ps Received.server e h rest =
      rw e (told-Guarded registration before c p.commands h)
  polled registration before required c p ps Received.dead e h rest =
      rw e (told-Guarded registration before c p.commands h)
  polled registration before required c p ps Received.registration_rejected e h rest =
      rw e (told-Guarded registration before c p.commands h)

  await-Guarded :
      (registration : M) (before : ℕ) (required : Bool) (c : Conn M) (ps : List (Poll M))
      → Guarded registration none c
      → Guarded registration (admitted required ps) (await_registration before required c ps)
  unfolding await_registration admitted
  await-Guarded registration before required c [] h = h
  await-Guarded registration before required c (p ∷ ps) h =
      polled registration before required c p ps p.received refl h (
        await-Guarded registration before required
          (record c { buffer = buffer_pending c.buffer p.commands }) ps
          (h.0, Kept-buffer_pending c.buffer p.commands h.1))

  -- What left on a connection, and what its client keeps.
  abbrev pub Barred : M → Option (List String) → Conn M → Type 0
  Barred registration flags c = ((c.out ≡ []) × Kept c.buffer.items) ⊎ Guarded registration flags c

  -- Where the offline buffer has only messages that are kept for it, a connection, whatever its
  -- polls receive and whenever it dies: nothing leaves on it but the registration, until the plane
  -- answers that with the flags that it accepts, the binding flag among them if one is required;
  -- after that no message leaves whose flag is not among these; and the buffer, with what came in
  -- while nobody was admitted and what a dying connection gave back, again has only messages that
  -- are kept for it.
  pub connect-Barred :
      (sends : ℕ) (required : Bool) (registration : M) (buffer : OfflineBuffer (ClientMsg M))
      (ps : List (Poll M))
      → Kept buffer.items
      → Barred registration (admitted required ps) (connect sends required registration buffer ps)
  unfolding connect
  connect-Barred zero required registration buffer ps h = inl (refl, h)
  connect-Barred (suc n) required registration buffer ps h = inr (
      await-Guarded registration buffer.dropped required
        (record (opened (suc n) buffer) { sends = n; out = ClientMsg.register registration ∷ [] })
        ps (([], refl, refl), h))
