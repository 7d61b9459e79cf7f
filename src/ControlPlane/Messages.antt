-- ===== src/ControlPlane/Messages.antt =====
-- The classification of the client's messages, transport.rs and flags.rs of
-- waddle-core/crates/waddle-controlplane/src. `M` stands for the protobuf contents, of which only what
-- the classification reads is written out.
use waddle_sdk.Prelude.{
  Bool, true, false, ◌&&◌, not, Option, none, some, String, ◌==◌, is_none, if◌then◌else◌,
}

pub data Payload : Type 0 where
  proprio : (part : String) → Payload
  still other_payload : Payload

pub data GateMsg : Type 0 where
  event ack chat_request task_session_request calibration_measurement : GateMsg
  workspace_artifact_request hosted_run_status other_msg : GateMsg

pub data ClientMsg (M : Type 0) : Type 0 where
  register negotiate heartbeat claim_episode handoff_lease request_reset : M → ClientMsg M
  observation : Payload → M → ClientMsg M
  gate : GateMsg → M → ClientMsg M

module _ {M : Type 0} where
  unfoldable pub is_droppable : ClientMsg M → Bool
  is_droppable (ClientMsg.heartbeat m) = true
  is_droppable (ClientMsg.observation Payload.still m) = true
  is_droppable _ = false

  unfoldable pub connection_scoped_flag : ClientMsg M → Option String
  connection_scoped_flag (ClientMsg.observation (Payload.proprio part) m) =
      if part == "" then none else some "waddle.v0.parts"
  connection_scoped_flag (ClientMsg.observation Payload.still m) = some "waddle.v0.obs.stills"
  connection_scoped_flag (ClientMsg.gate GateMsg.ack m) = some "waddle.v0.plane.acks"
  connection_scoped_flag (ClientMsg.gate GateMsg.chat_request m) = some "waddle.v0.agent.chat"
  connection_scoped_flag (ClientMsg.gate GateMsg.task_session_request m) =
      some "waddle.v0.task.sessions"
  connection_scoped_flag (ClientMsg.gate GateMsg.calibration_measurement m) =
      some "waddle.v0.calibration.measurements"
  connection_scoped_flag (ClientMsg.gate GateMsg.workspace_artifact_request m) =
      some "waddle.v0.workspace.artifacts"
  connection_scoped_flag (ClientMsg.gate GateMsg.hosted_run_status m) = some "waddle.v0.hosted.runs"
  connection_scoped_flag _ = none

  unfoldable pub buffer_when_offline : ClientMsg M → Bool
  unfolding is_droppable connection_scoped_flag
  buffer_when_offline m = not (is_droppable m) && is_none (connection_scoped_flag m)
