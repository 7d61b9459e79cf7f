-- ===== src/Session/Safety/Plane.antt =====
-- Grant liveness and partitions of session.rs keep the invariant and do not panic.
use waddle_sdk.Prelude.{List, arith}
use waddle_sdk.Types.Time.{MonoNs}
use waddle_sdk.GrantHealth.{ProxySample}
use waddle_sdk.Session.Event.{GrantChangeDirective}
use waddle_sdk.Session.Context.{Ctx}
use waddle_sdk.Session.Handlers.Plane.{
  on_proxy_signals, on_heartbeat_ack, on_partition_start, on_partition_end,
}
use waddle_sdk.Session.Safety.Invariant.{Inv, Keeps}

module _ (c : Ctx) (at : MonoNs) where
  pub on_proxy_signals-Keeps :
      (sample : ProxySample) → Inv c.s → Keeps (on_proxy_signals c sample at)
  unfolding on_proxy_signals
  on_proxy_signals-Keeps sample v = ground arith

  pub on_heartbeat_ack-Keeps :
      (changes : List GrantChangeDirective) → Inv c.s → Keeps (on_heartbeat_ack c changes at)
  unfolding on_heartbeat_ack
  on_heartbeat_ack-Keeps changes v = ground arith

  pub on_partition_start-Keeps : Inv c.s → Keeps (on_partition_start c at)
  unfolding on_partition_start
  on_partition_start-Keeps v = ground arith

  pub on_partition_end-Keeps : Inv c.s → Keeps (on_partition_end c at)
  unfolding on_partition_end
  on_partition_end-Keeps v = ground arith
