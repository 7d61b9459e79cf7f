-- ===== src/Session/Phases.antt =====
-- The phase tests that the guards of session.rs make on the session's episode.
use waddle_sdk.Prelude.{Bool, true, false, not, Option, none, some}
use waddle_sdk.Types.{InterventionPhase, ResetVerificationMode}
use waddle_sdk.Session.Episode.{Phase, EpisodeState, is_terminal}

-- `active` of `step`: there is an episode, and it is not terminal.
abbrev pub is_active : Option EpisodeState → Bool
is_active none = false
is_active (some e) = not (is_terminal e.phase)

abbrev pub resetting? : Phase → Bool
resetting? Phase.resetting = true
resetting? _ = false

abbrev pub ready? : Phase → Bool
ready? Phase.ready = true
ready? _ = false

abbrev pub running? : Phase → Bool
running? Phase.running = true
running? _ = false

abbrev pub post_reset? : Phase → Bool
post_reset? Phase.post_reset = true
post_reset? _ = false

abbrev pub reset_phase? : Phase → Bool
reset_phase? Phase.resetting = true
reset_phase? Phase.post_reset = true
reset_phase? _ = false

abbrev pub intervention? : Phase → Bool
intervention? (Phase.intervention p) = true
intervention? _ = false

abbrev pub engage? : Phase → Bool
engage? (Phase.intervention InterventionPhase.engage) = true
engage? _ = false

abbrev pub settle? : Phase → Bool
settle? (Phase.intervention InterventionPhase.settle) = true
settle? _ = false

abbrev pub is_resetting : Option EpisodeState → Bool
is_resetting none = false
is_resetting (some e) = resetting? e.phase

abbrev pub is_ready : Option EpisodeState → Bool
is_ready none = false
is_ready (some e) = ready? e.phase

abbrev pub is_running : Option EpisodeState → Bool
is_running none = false
is_running (some e) = running? e.phase

abbrev pub is_post_reset : Option EpisodeState → Bool
is_post_reset none = false
is_post_reset (some e) = post_reset? e.phase

abbrev pub in_reset_phase : Option EpisodeState → Bool
in_reset_phase none = false
in_reset_phase (some e) = reset_phase? e.phase

abbrev pub is_intervention : Option EpisodeState → Bool
is_intervention none = false
is_intervention (some e) = intervention? e.phase

abbrev pub is_engage : Option EpisodeState → Bool
is_engage none = false
is_engage (some e) = engage? e.phase

abbrev pub is_settle : Option EpisodeState → Bool
is_settle none = false
is_settle (some e) = settle? e.phase

abbrev pub is_blocking : ResetVerificationMode → Bool
is_blocking ResetVerificationMode.blocking = true
is_blocking ResetVerificationMode.optimistic_async = false
