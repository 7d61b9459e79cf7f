-- ===== src/Runtime/Rows.antt =====
-- The rows of an episode's recording, in reducer.rs and pumps.rs of waddle-core/crates/waddle-runtime/src.
-- The actions of a row are those of the wire; a marker is a no-op with its reason.
use waddle_sdk.Prelude.{ℕ, Bool, Option, none, some, List, [], ◌∷◌, String, is_some, if◌then◌else◌}
use waddle_sdk.Prelude.Int.{ℤ, pos}
use waddle_sdk.Types.Time.{Stamp}
use waddle_sdk.Types.Actor.{ProvenanceTag}
use waddle_sdk.Session.Emission.{EpisodeEvent}
use waddle_sdk.Gate.Action.{OwnedAction}
use waddle_sdk.Gate.Tick.{GateDecision, GateRecord}
use waddle_sdk.Actions.Errors.{Result, ok, err}
use waddle_sdk.Actions.Space.{ActionSpace}
use waddle_sdk.Actions.Message.{Action}
use waddle_sdk.Actions.Unflatten.{unflatten_action}
use waddle_sdk.Runtime.Proprio.{ProprioSample, PartMap, sole_part, proprio_sample_for}

pub data NoopReason : Type 0 where
  bypass_active hold_active reset_active agent_episode : NoopReason

-- `pumps::DispatchedAction`.
pub record DispatchedAction (F : Type 0) : Type 0 where
  pub stamp : Stamp
  pub seq : ℕ
  pub provenance : ProvenanceTag
  pub action : OwnedAction F

pub data RowAction (F : Type 0) : Type 0 where
  driven : Action F → RowAction F
  marker : NoopReason → RowAction F

pub record ActionRow (F : Type 0) : Type 0 where
  pub actions : List (RowAction F)
  pub t_emitted_ns : ℤ
  pub t_obs_ns : ℤ
  pub seq : ℕ
  pub source_id : String
  pub provenance : ProvenanceTag

pub record ObservationRow (F : Type 0) : Type 0 where
  pub t_ns : ℤ
  pub sample : ProprioSample F

pub data Row (F : Type 0) : Type 0 where
  event : EpisodeEvent → Row F
  observation : ObservationRow F → Row F
  actions : ActionRow F → Row F

module _ {F : Type 0} where
  -- An action that does not fit the space leaves a row without one.
  abbrev pub decoded : Result (Action F) → List (RowAction F)
  decoded (ok a) = RowAction.driven a ∷ []
  decoded (err e) = []

  unfoldable pub unflatten_owned : (F → Bool) → ActionSpace F → OwnedAction F → Result (Action F)
  unfolding unflatten_action
  unflatten_owned is_finite space a =
      unflatten_action is_finite a.values a.velocity_feedforward a.gripper a.part space

  -- The action row of `write_dispatched`.
  unfoldable pub dispatched_row : (F → Bool) → ActionSpace F → DispatchedAction F → ActionRow F
  unfolding unflatten_owned
  dispatched_row is_finite space d = record {
    actions = decoded (unflatten_owned is_finite space d.action);
    t_emitted_ns = d.stamp.mono;
    t_obs_ns = pos 0;
    seq = d.seq;
    source_id = "waddle_sdk.bypass-pump";
    provenance = d.provenance;
  }

  abbrev pub driven_by :
      (F → Bool) → ActionSpace F → Option (OwnedAction F) → Option (List (RowAction F))
  driven_by is_finite space none = none
  driven_by is_finite space (some a) = some (decoded (unflatten_owned is_finite space a))

  -- The actions that a gate record's row has; `none` is the early return of `write_record`.
  unfoldable pub decided :
      (F → Bool)
      → ActionSpace F
      → GateDecision
      → Option (OwnedAction F)
      → Option (List (RowAction F))
  unfolding unflatten_owned
  decided is_finite space GateDecision.pass a = driven_by is_finite space a
  decided is_finite space GateDecision.substitute a = driven_by is_finite space a
  decided is_finite space GateDecision.blend a = driven_by is_finite space a
  decided is_finite space GateDecision.noop a =
      some (RowAction.marker NoopReason.bypass_active ∷ [])
  decided is_finite space GateDecision.hold a = some (RowAction.marker NoopReason.hold_active ∷ [])
  decided is_finite space GateDecision.reset_active a =
      some (RowAction.marker NoopReason.reset_active ∷ [])
  decided is_finite space GateDecision.agent_episode a =
      some (RowAction.marker NoopReason.agent_episode ∷ [])

  abbrev with_actions : GateRecord F → Option (List (RowAction F)) → Option (ActionRow F)
  with_actions rec none = none
  with_actions rec (some row) = some (record {
    actions = row;
    t_emitted_ns = rec.stamp.mono;
    t_obs_ns = if is_some rec.obs then rec.stamp.mono else pos 0;
    seq = rec.seq;
    source_id = "waddle_sdk.gate";
    provenance = rec.provenance;
  })

  -- The action row of `write_record`.
  unfoldable pub record_row : (F → Bool) → ActionSpace F → GateRecord F → Option (ActionRow F)
  unfolding decided
  record_row is_finite space rec =
      with_actions rec (decided is_finite space rec.decision rec.action)

  -- The observation row of `write_record`: this tick's own observation, with the sole part's extras.
  abbrev observed : PartMap F → GateRecord F → Option (List F) → Option (ObservationRow F)
  observed parts rec none = none
  observed parts rec (some obs) = some (record {
    t_ns = rec.stamp.mono;
    sample = record (proprio_sample_for parts sole_part) { joint_pos = obs };
  })

  unfoldable pub observation_row : PartMap F → GateRecord F → Option (ObservationRow F)
  unfolding proprio_sample_for
  observation_row parts rec = observed parts rec rec.obs
