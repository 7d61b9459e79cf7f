-- ===== src/ControlPlane/Heartbeat.antt =====
-- The heartbeat tracker, waddle-core/crates/waddle-controlplane/src/heartbeat.rs: the pings and the
-- round-trip time that their acks give. `F` stands for `f64`; reading the host's load is I/O outside.
pub mod RoundTrip
use waddle_sdk.Prelude.{
  ℕ, Bool, true, false, ◌&&◌, ◌||◌, not, Option, none, some, List, String, if◌then◌else◌,
}
use waddle_sdk.Prelude.Int.{ℤ, pos, ltb_ℤ}
use waddle_sdk.Prelude.Float.{F64Ops}
use waddle_sdk.Types.Time.{MonoNs}
use waddle_sdk.Types.Wrapping.{sub_i64}

pub record HeartbeatTracker : Type 0 where
  pub last_rtt_ns : Option ℤ

pub record ProxyInputs (F : Type 0) : Type 0 where
  pub gate_tick_p50_ns : ℤ
  pub gate_tick_p95_ns : ℤ
  pub gate_tick_max_ns : ℤ
  pub gate_tick_samples : ℕ
  pub callback_p50_ns : ℤ
  pub callback_p95_ns : ℤ
  pub host_load_1m : F
  pub host_load_5m : F

pub record JitterStats (F : Type 0) : Type 0 where
  pub p50_ns : ℤ
  pub p95_ns : ℤ
  pub p99_ns : ℤ
  pub max_ns : ℤ
  pub rate_hz : F
  pub samples : ℕ

pub record ProxySignals (F : Type 0) : Type 0 where
  pub control_rtt_ns : ℤ
  pub gate_tick : JitterStats F
  pub host_load_1m : F
  pub host_load_5m : F
  pub cpu_utilization : F
  pub callback_dispatch : JitterStats F

-- `M` stands for the verb measurements that ride along.
pub record HeartbeatPing (F M : Type 0) : Type 0 where
  pub session_id : String
  pub t_ns : ℤ
  pub signals : ProxySignals F
  pub verb_measurements : List M

abbrev pub or_zero : Option ℤ → ℤ
or_zero none = pos 0
or_zero (some n) = n

unfoldable pub build_ping :
    {F M : Type 0}
    → F64Ops F
    → HeartbeatTracker
    → String
    → MonoNs
    → ProxyInputs F
    → List M
    → HeartbeatPing F M
build_ping f64 tracker session_id now inputs verb_measurements = record {
  session_id = session_id;
  t_ns = now;
  signals = record {
    control_rtt_ns = or_zero tracker.last_rtt_ns;
    gate_tick = record {
      p50_ns = inputs.gate_tick_p50_ns;
      p95_ns = inputs.gate_tick_p95_ns;
      p99_ns = inputs.gate_tick_p95_ns;
      max_ns = inputs.gate_tick_max_ns;
      rate_hz = f64.zero;
      samples = inputs.gate_tick_samples;
    };
    host_load_1m = inputs.host_load_1m;
    host_load_5m = inputs.host_load_5m;
    cpu_utilization = f64.zero;
    callback_dispatch = record {
      p50_ns = inputs.callback_p50_ns;
      p95_ns = inputs.callback_p95_ns;
      p99_ns = inputs.callback_p95_ns;
      max_ns = inputs.callback_p95_ns;
      rate_hz = f64.zero;
      samples = 0;
    };
  };
  verb_measurements = verb_measurements;
}

abbrev pub is_zero : ℤ → Bool
is_zero n = not (ltb_ℤ n (pos 0) || ltb_ℤ (pos 0) n)

-- The ack's `echo_t_ns`, and the clock.
unfoldable pub note_ack : HeartbeatTracker → ℤ → MonoNs → HeartbeatTracker × Option ℤ
unfolding sub_i64
note_ack tracker echo_t_ns now =
    let rtt = sub_i64 now echo_t_ns in
    if is_zero echo_t_ns
    then (tracker, none)
    else if not (ltb_ℤ rtt (pos 0))
    then (record { last_rtt_ns = some rtt }, some rtt)
    else (tracker, none)
