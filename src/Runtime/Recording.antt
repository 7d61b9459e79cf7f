-- ===== src/Runtime/Recording.antt =====
-- The recording of the active episode, in reducer.rs of waddle-core/crates/waddle-runtime/src: what the
-- reducer drains onto it, and how it is opened and finalized. A ring or a channel is the list of what
-- was sent and not yet received. The MCAP writer and the files are the lists of what they are given;
-- a write that fails is ignored in the source.
pub mod Episode
use waddle_sdk.Prelude.{
  ◌+◌, Bool, true, false, ◌&&◌, ◌||◌, not, Option, none, some, List, [], ◌∷◌, ◌++◌, String, is_some,
  if◌then◌else◌,
}
use waddle_sdk.Types.Time.{MonoNs, Stamp}
use waddle_sdk.Types.{EpisodeId}
use waddle_sdk.Gate.Tick.{GateRecord}
use waddle_sdk.Actions.Space.{ActionSpace}
use waddle_sdk.Tripwire.{ObsSnapshot}
use waddle_sdk.Sidecar.{SidecarBuilder}
use waddle_sdk.Sidecar.Finish.{Sidecar}
use waddle_sdk.Runtime.Proprio.{
  ProprioReport, StampedProprioReport, PartMap, LatestJoints, sole_part, proprio_sample_for,
  take_report, take_obs, publish_joints,
}
use waddle_sdk.Runtime.Rows.{
  DispatchedAction, Row, ActionRow, ObservationRow, dispatched_row, record_row, observation_row,
}

-- `dir` says whether a recording directory is set, and `creates` whether a file can be made there.
pub record Recording (F : Type 0) : Type 0 where
  pub dir : Bool
  pub creates : EpisodeId → Bool
  pub is_finite : F → Bool
  pub before : String → String → Bool
  pub space : ActionSpace F
  pub record_slot : Option (List (GateRecord F))
  pub records_rx : Option (List (GateRecord F))
  pub dispatch_rx : List (DispatchedAction F)
  pub proprio_rx : List (StampedProprioReport F)
  pub obs_slot : Option (ObsSnapshot F)
  pub latest_joints : LatestJoints F
  pub latest : PartMap F
  pub sidecar : Option SidecarBuilder
  pub mcap : Option (List (Row F))
  pub sidecars : List Sidecar
  pub files : List (List (Row F))

module _ {F : Type 0} where
  -- A write to the episode's file, if there is one.
  abbrev pub appended : Option (List (Row F)) → List (Row F) → Option (List (Row F))
  appended none rows = none
  appended (some file) rows = some (file ++ rows)

  abbrev pub observation_rows : Option (ObservationRow F) → List (Row F)
  observation_rows none = []
  observation_rows (some o) = Row.observation o ∷ []

  abbrev pub action_rows : Option (ActionRow F) → List (Row F)
  action_rows none = []
  action_rows (some a) = Row.actions a ∷ []

  -- `write_record`.
  unfoldable pub write_record : Recording F → GateRecord F → Recording F
  unfolding observation_row record_row
  write_record r rec = record r {
    mcap = appended r.mcap (
        observation_rows (observation_row r.latest rec)
        ++ action_rows (record_row r.is_finite r.space rec));
  }

  -- `publish_obs`, the jog controller's joints and the sole part's.
  abbrev pub observe : Recording F → MonoNs → Option (List F) → Recording F
  observe r at none = r
  observe r at (some obs) = record r {
    obs_slot = some (record { at = at; joint_pos = obs; ee_pos = none; force_n = none });
    latest_joints = publish_joints r.latest_joints sole_part at obs;
    latest = take_obs r.before r.latest obs;
  }

  unfoldable pub drain_record : Recording F → GateRecord F → Recording F
  unfolding take_obs publish_joints write_record
  drain_record r rec = write_record (observe r rec.stamp.mono rec.obs) rec

  unfoldable pub drain_records : Recording F → List (GateRecord F) → Recording F
  unfolding drain_record
  drain_records r [] = r
  drain_records r (rec ∷ recs) = drain_records (drain_record r rec) recs

  abbrev drain_ring : Recording F → Option (List (GateRecord F)) → Recording F
  drain_ring r none = r
  drain_ring r (some recs) = drain_records (record r { records_rx = some [] }) recs

  abbrev fresh_or :
      Option (List (GateRecord F)) → Option (List (GateRecord F)) → Option (List (GateRecord F))
  fresh_or none before = before
  fresh_or (some fresh) before = some fresh

  -- A fresh ring replaces the one before it, whose rest is discarded.
  unfoldable pub drain_gate_records : Recording F → Recording F
  unfolding drain_records
  drain_gate_records r =
      drain_ring (record r { record_slot = none }) (fresh_or r.record_slot r.records_rx)

  unfoldable pub write_dispatched : Recording F → DispatchedAction F → Recording F
  unfolding dispatched_row
  write_dispatched r d = record r {
    mcap = appended r.mcap (Row.actions (dispatched_row r.is_finite r.space d) ∷ []);
  }

  unfoldable pub write_all_dispatched : Recording F → List (DispatchedAction F) → Recording F
  unfolding write_dispatched
  write_all_dispatched r [] = r
  write_all_dispatched r (d ∷ ds) = write_all_dispatched (write_dispatched r d) ds

  unfoldable pub drain_dispatched_actions : Recording F → Recording F
  unfolding write_all_dispatched
  drain_dispatched_actions r = write_all_dispatched (record r { dispatch_rx = [] }) r.dispatch_rx

  abbrev reported_row : PartMap F → StampedProprioReport F → Row F
  reported_row parts s =
      Row.observation
        (record { t_ns = s.stamp.mono; sample = proprio_sample_for parts s.report.part })

  unfoldable pub take_stamped : Recording F → StampedProprioReport F → Recording F
  unfolding take_report proprio_sample_for
  take_stamped r s =
      let parts = take_report r.before r.latest s.report in
      record r { latest = parts; mcap = appended r.mcap (reported_row parts s ∷ []) }

  unfoldable pub take_all_stamped : Recording F → List (StampedProprioReport F) → Recording F
  unfolding take_stamped
  take_all_stamped r [] = r
  take_all_stamped r (s ∷ ss) = take_all_stamped (take_stamped r s) ss

  unfoldable pub drain_proprio_reports : Recording F → Recording F
  unfolding take_all_stamped
  drain_proprio_reports r = take_all_stamped (record r { proprio_rx = [] }) r.proprio_rx

  unfoldable pub drain : Recording F → Recording F
  unfolding drain_gate_records drain_dispatched_actions drain_proprio_reports
  drain r = drain_proprio_reports (drain_dispatched_actions (drain_gate_records r))
