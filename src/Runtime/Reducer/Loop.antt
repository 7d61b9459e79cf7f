-- ===== src/Runtime/Reducer/Loop.antt =====
-- The loop of reducer.rs.
use waddle_sdk.Prelude.{◌+◌, Bool, true, false, Option, none, some, List, [], ◌∷◌, ◌++◌}
use waddle_sdk.Outcome.{Outcome, done, ◌>>=◌}
use waddle_sdk.Types.Time.{MonoNs}
use waddle_sdk.Session.Event.{SessionEvent}
use waddle_sdk.Runtime.Acks.{Injected, from_event}
use waddle_sdk.Runtime.Timers.{Armed, due, pending}
use waddle_sdk.Runtime.Proprio.{ProprioSample, uplink}
use waddle_sdk.Runtime.Recording.{drain}
use waddle_sdk.Runtime.Recording.Episode.{finalize_episode_if_terminal}
use waddle_sdk.Runtime.Reducer.{Reducer, ToPlane, now_of}
use waddle_sdk.Runtime.Reducer.Step.{step_and_apply}

module _ {F : Type 0} where
  abbrev observations : MonoNs → List (ProprioSample F) → List (ToPlane F)
  observations now [] = []
  observations now (s ∷ ss) = ToPlane.observation now s ∷ observations now ss

  abbrev pub uplinked : Reducer F → MonoNs → Bool → Reducer F
  uplinked r now false = r
  uplinked r now true =
      let (samples, parts) = uplink r.parts_negotiated now r.recording.latest in
      record r {
        recording = record r.recording { latest = parts };
        sent = r.sent ++ observations now samples;
      }

  -- The due timers fire, each as an event of its own.
  unfoldable pub fire : Reducer F → Armed → Outcome (Reducer F)
  unfolding step_and_apply from_event
  fire r [] = done r
  fire r (t ∷ ts) = do
    next ← step_and_apply r (from_event (SessionEvent.timer_fired t.0 t.1))
    fire next ts

  abbrev pub receive : Reducer F → Option Injected → Outcome (Reducer F)
  receive r none = done r
  receive r (some injected) = step_and_apply r injected

  -- What a round does before its timers fire.
  unfoldable pub woken : Reducer F → Reducer F
  unfolding drain uplink
  woken r =
      uplinked (record r { reads = r.reads + 1; recording = drain r.recording }) (now_of r)
        r.has_plane

  -- A round of `run` with no shutdown, and with what it receives in time, if anything.
  unfoldable pub round : Reducer F → Option Injected → Outcome (Reducer F)
  unfolding woken fire due pending
  round r received =
      let w = woken r in
      let now = now_of r in
      fire (record w { armed = pending now w.armed }) (due now w.armed) >>= λ fired.
      receive fired received

  -- The last round.
  unfoldable pub shut_down : Reducer F → Reducer F
  unfolding drain finalize_episode_if_terminal
  shut_down r = record r {
    recording =
        finalize_episode_if_terminal (drain r.recording) r.fsm.episode true (r.clock r.reads);
  }
