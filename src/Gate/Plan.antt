-- ===== src/Gate/Plan.antt =====
-- The gate plan, plan.rs of waddle-core/crates/waddle-gate/src.
use waddle_sdk.Prelude.{not, Option, if◌then◌else◌}
use waddle_sdk.Prelude.Int.{ℤ, pos, ltb_ℤ}
use waddle_sdk.Prelude.Float.{F64Ops, F32Ops}
use waddle_sdk.Types.Time.{MonoNs}
use waddle_sdk.Types.Wrapping.{sub_i64}
use waddle_sdk.Types.Chunking.{Interp}
use waddle_sdk.Types.Actor.{ProvenanceTag}

pub record BlendSchedule : Type 0 where
  pub start : MonoNs
  pub blend_ns : ℤ
  pub interp : Interp

-- Blend progress, in [0, 1], at `now`.
unfoldable pub progress : {F G : Type 0} → F64Ops F → F32Ops G F → BlendSchedule → MonoNs → G
unfolding sub_i64
progress f64 f32 schedule now =
    if not (ltb_ℤ (pos 0) schedule.blend_ns)
    then f32.one
    else f32.narrow (
        f64.clamp (f64.div (f64.of_i64 (sub_i64 now schedule.start)) (f64.of_i64 schedule.blend_ns))
          f64.zero f64.one)

pub data PlanMode : Type 0 where
  passthrough held : PlanMode
  claimed : (provenance : ProvenanceTag) (blend : Option BlendSchedule) → PlanMode
  bypass reset agent_episode : (provenance : ProvenanceTag) → PlanMode

pub record GatePlan : Type 0 where
  pub mode : PlanMode
  pub since : MonoNs
