-- ===== src/ControlPlane/Client.antt =====
-- One connection of the control-plane client, client.rs of waddle-core/crates/waddle-controlplane/src:
-- the handshake, the replay of the offline buffer and the pump. The transport is given by what it
-- does: how many sends succeed before the connection dies, and what each poll receives. A command is
-- taken by the poll before which it was sent. Sleeping and shutting down are left out.
pub mod Offline
pub mod Barrier
use waddle_sdk.Prelude.{
  ℕ, zero, suc, ◌+◌, ◌-◌, ◌%◌, ◌^◌, Bool, true, false, ◌&&◌, ◌||◌, not, Option, none, some, List,
  [], ◌∷◌, ◌++◌, String, ◌==◌, ltb, if◌then◌else◌,
}
use waddle_sdk.ControlPlane.Buffer.{OfflineBuffer, push, drain}
use waddle_sdk.ControlPlane.Messages.{ClientMsg, connection_scoped_flag, buffer_when_offline}

-- What a poll of the connection receives; a server message carries nothing that the client reads.
pub data Received : Type 0 where
  registered : (flags : List String) → Received
  registration_rejected server nothing dead : Received

pub data PlaneEvent : Type 0 where
  connected registration_rejected server disconnected : PlaneEvent
  registered : (flags : List String) → PlaneEvent
  buffer_overflowed : (dropped : ℕ) → PlaneEvent

module _ (M : Type 0) where
  pub record Poll : Type 0 where
    pub commands : List (ClientMsg M)
    pub received : Received

  -- What a connection has left, and what left on it; what the client keeps and reports.
  pub record Conn : Type 0 where
    pub sends : ℕ
    pub out : List (ClientMsg M)
    pub alive : Bool
    pub buffer : OfflineBuffer (ClientMsg M)
    pub events : List PlaneEvent

abbrev pub holds : List String → String → Bool
holds [] flag = false
holds (f ∷ flags) flag = f == flag || holds flags flag

abbrev pub binding_flag : String
binding_flag = "waddle.v0.connector.binding"

-- A flag-scoped message goes out only where its flag was accepted.
abbrev pub is_legal : List String → Option String → Bool
is_legal accepted none = true
is_legal accepted (some flag) = holds accepted flag

-- A registration that needs no binding, or has it.
abbrev pub is_accepted : Bool → List String → Bool
is_accepted required flags = not required || holds flags binding_flag

module _ {M : Type 0} where
  abbrev pub report : Conn M → PlaneEvent → Conn M
  report c e = record c { events = c.events ++ e ∷ [] }

  abbrev pub die : Conn M → Conn M
  die c = report (record c { alive = false }) PlaneEvent.disconnected

  -- A message for the offline buffer, if it is one that is kept.
  unfoldable pub buffer_offline :
      OfflineBuffer (ClientMsg M) → ClientMsg M → OfflineBuffer (ClientMsg M)
  unfolding push buffer_when_offline
  buffer_offline b m = if buffer_when_offline m then (push b m).0 else b

  unfoldable pub buffer_pending :
      OfflineBuffer (ClientMsg M) → List (ClientMsg M) → OfflineBuffer (ClientMsg M)
  unfolding buffer_offline
  buffer_pending b [] = b
  buffer_pending b (m ∷ ms) = buffer_pending (buffer_offline b m) ms

  -- `report_overflow`.
  unfoldable pub report_overflow : ℕ → Conn M → Conn M
  report_overflow before c =
      if ltb before c.buffer.dropped
      then report c (PlaneEvent.buffer_overflowed (c.buffer.dropped - before))
      else c

  abbrev pub send_with : ℕ → Conn M → ClientMsg M → Conn M × Bool
  send_with zero c m = (c, false)
  send_with (suc n) c m = (record c { sends = n; out = c.out ++ m ∷ [] }, true)

  -- `conn.tx.send`: what went out, or that the connection is gone.
  abbrev pub try_send : Conn M → ClientMsg M → Conn M × Bool
  try_send c m = send_with c.sends c m

  -- `replay_buffer`, of what was drained: a write that fails goes back, with the rest.
  unfoldable pub replay : Conn M → List (ClientMsg M) → Conn M
  unfolding buffer_pending
  replay c [] = c
  replay c (m ∷ ms) =
      let (next, sent) = try_send c m in
      let rest = replay next ms in
      if sent then rest else die (record next { buffer = buffer_pending next.buffer (m ∷ ms) })

  unfoldable pub replay_buffer : Conn M → Conn M
  unfolding drain replay
  replay_buffer c = replay (record c { buffer = (drain c.buffer).1 }) (drain c.buffer).0

  -- The outbound loop of the pump, over the commands that are there.
  unfoldable pub pump_out : List String → Conn M → List (ClientMsg M) → Conn M
  unfolding connection_scoped_flag buffer_offline
  pump_out accepted c [] = c
  pump_out accepted c (m ∷ ms) =
      let (next, sent) = try_send c m in
      let skipped = pump_out accepted c ms in
      let rest = pump_out accepted next ms in
      if not (is_legal accepted (connection_scoped_flag m))
      then skipped
      else if sent
      then rest
      else die (record next { buffer = buffer_offline next.buffer m })

  abbrev pub pump_in : Conn M → Received → Conn M
  pump_in c (Received.registered flags) = die c
  pump_in c Received.registration_rejected = report c PlaneEvent.server
  pump_in c Received.server = report c PlaneEvent.server
  pump_in c Received.nothing = c
  pump_in c Received.dead = die c

  -- The rounds of the pump, until the connection dies.
  unfoldable pub pump : List String → Conn M → List (Poll M) → Conn M
  unfolding pump_out
  pump accepted c [] = c
  pump accepted c (p ∷ ps) =
      let after = pump_out accepted c p.commands in
      let seen = pump_in after p.received in
      let rest = pump accepted seen ps in
      if not after.alive then after else if not seen.alive then seen else rest

  -- What follows a registration.
  abbrev pub joined : Bool → Conn M → List String → List (Poll M) → Conn M
  joined required c flags ps =
      let known = report c (PlaneEvent.registered flags) in
      let replayed = replay_buffer known in
      if not (is_accepted required flags)
      then die known
      else if replayed.alive
      then pump flags replayed ps
      else replayed

  -- `await_registration`: commands that come in meanwhile are buffered.
  unfoldable pub await_registration : ℕ → Bool → Conn M → List (Poll M) → Conn M
  unfolding buffer_pending replay_buffer pump report_overflow
  await_registration before required c [] = c
  await_registration before required c (p ∷ ps) =
      let kept = record c { buffer = buffer_pending c.buffer p.commands } in
      let told = report_overflow before kept in
      let waiting = await_registration before required kept ps in
      elim p.received [
        | Received.registered flags ↦ joined required told flags ps
        | Received.registration_rejected ↦ die (report told PlaneEvent.registration_rejected)
        | Received.server ↦ die told
        | Received.dead ↦ die told
        | Received.nothing ↦ waiting
      ]

  abbrev pub opened : ℕ → OfflineBuffer (ClientMsg M) → Conn M
  opened sends buffer = record {
    sends = sends;
    out = [];
    alive = true;
    buffer = buffer;
    events = PlaneEvent.connected ∷ [];
  }

  -- A connection, from its dial to its end or to the last poll.
  unfoldable pub connect : ℕ → Bool → M → OfflineBuffer (ClientMsg M) → List (Poll M) → Conn M
  unfolding await_registration
  connect sends required registration buffer ps =
      let (c, sent) = try_send (opened sends buffer) (ClientMsg.register registration) in
      if sent then await_registration buffer.dropped required c ps else die c
