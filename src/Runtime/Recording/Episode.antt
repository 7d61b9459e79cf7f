-- ===== src/Runtime/Recording/Episode.antt =====
-- How the recording of an episode is opened and finalized, in reducer.rs of
-- waddle-core/crates/waddle-runtime/src.
use waddle_sdk.Prelude.{
  Bool, true, ◌&&◌, ◌||◌, Option, none, some, List, [], ◌∷◌, ◌++◌, is_some, if◌then◌else◌,
}
use waddle_sdk.Types.Time.{Stamp}
use waddle_sdk.Types.{EpisodeId, TerminalOutcome}
use waddle_sdk.Session.Episode.{Phase, EpisodeState}
use waddle_sdk.Sidecar.{SidecarBuilder, open_bounds, close_bounds}
use waddle_sdk.Sidecar
use waddle_sdk.Sidecar.Finish.{
  Sidecar, set_outcome, set_retake, set_born_claimed, set_post_reset_declared, finish,
}
use waddle_sdk.Runtime.Rows.{Row}
use waddle_sdk.Runtime.Recording.{Recording, drain}

abbrev pub phase_of : Option EpisodeState → Option Phase
phase_of none = none
phase_of (some e) = some e.phase

abbrev pub ended_with : Option Phase → Option TerminalOutcome
ended_with (some (Phase.terminal outcome)) = some outcome
ended_with _ = none

abbrev with_outcome : Option TerminalOutcome → SidecarBuilder → SidecarBuilder
with_outcome none b = b
with_outcome (some outcome) b = set_outcome b outcome ""

abbrev kept_sidecar : Bool → Option Sidecar → List Sidecar → List Sidecar
kept_sidecar true (some s) sidecars = sidecars ++ s ∷ []
kept_sidecar _ _ sidecars = sidecars

abbrev linked : Option EpisodeId → EpisodeId → SidecarBuilder → SidecarBuilder
linked none id b = b
linked (some parent) id b = set_retake b parent id

module _ {F : Type 0} where
  abbrev kept_file : Option (List (Row F)) → List (List (Row F)) → List (List (Row F))
  kept_file none files = files
  kept_file (some rows) files = files ++ rows ∷ []

  -- What follows once a sidecar was taken.
  unfoldable pub close_episode :
      Recording F → Stamp → Option TerminalOutcome → SidecarBuilder → Recording F
  unfolding set_outcome close_bounds finish
  close_episode r now outcome b = record r {
    sidecar = none;
    sidecars = kept_sidecar r.dir (finish (close_bounds (with_outcome outcome b) now)) r.sidecars;
    mcap = none;
    files = kept_file r.mcap r.files;
  }

  abbrev pub finalized :
      Recording F → Stamp → Option TerminalOutcome → Option SidecarBuilder → Recording F
  finalized r now outcome none = r
  finalized r now outcome (some b) = close_episode r now outcome b

  -- `finalize_episode_if_terminal`. The clock is read once, and only if there is a sidecar.
  unfoldable pub finalize_episode_if_terminal :
      Recording F → Option EpisodeState → Bool → Stamp → Recording F
  unfolding drain close_episode
  finalize_episode_if_terminal r episode force now =
      let outcome = ended_with (phase_of episode) in
      let drained = drain r in
      if is_some outcome || force then finalized drained now outcome drained.sidecar else r

  -- `open_episode_records`, at `ended` for the episode before and at `now` for this one.
  unfoldable pub open_episode_records :
      Recording F
      → Option EpisodeState
      → EpisodeId
      → Bool
      → Option EpisodeId
      → Bool
      → Stamp
      → Stamp
      → Recording F
  unfolding finalize_episode_if_terminal Sidecar.new open_bounds set_born_claimed
      set_post_reset_declared set_retake
  open_episode_records r episode id born_claimed parent post_reset ended now =
      let before = finalize_episode_if_terminal r episode true ended in
      let born = set_born_claimed (open_bounds (Sidecar.new id) now) born_claimed in
      record before {
        sidecar = some (linked parent id (set_post_reset_declared born post_reset));
        mcap = if before.dir && before.creates id then some [] else none;
      }
