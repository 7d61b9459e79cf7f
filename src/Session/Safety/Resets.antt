-- ===== src/Session/Safety/Resets.antt =====
-- The reset and post-reset methods of session.rs keep the invariant and do not panic.
use waddle_sdk.Prelude.{
  Bool, true, false, ◌≡◌, refl, Option, none, some, String, is_some, is_none, arith,
}
use waddle_sdk.Types.Time.{MonoNs}
use waddle_sdk.Types.{TerminalOutcome, ResetKind}
use waddle_sdk.Session.Episode.{Phase, EpisodeState}
use waddle_sdk.Session.Context.{Ctx}
use waddle_sdk.Session.Reset.{
  engage_post_reset, enter_post_reset, request_terminal, apply_post_reset_result, close_timed_out,
}
use waddle_sdk.Session.Phases.{post_reset?}
use waddle_sdk.Session.Safety.Invariant.{Inv, Keeps, window_fits}
use waddle_sdk.Session.Safety.Closing.{
  at_episode, by_episode, no_post_window, Closed, close_run-Closes, after_Closes, close_run-Keeps,
}

abbrev PostReset : EpisodeState → Type 0
PostReset e =
    (post_reset? e.phase ≡ true)
    × (is_some e.pinned_outcome ≡ true)
    × (is_none e.reset_window ≡ true)

Closed-post_reset-Inv :
    (c d : Ctx) (e : EpisodeState) (o : TerminalOutcome)
    → e.pinned_outcome ≡ some o
    → is_none e.reset_window ≡ true
    → Closed e Phase.post_reset true c d
    → Inv d.s
Closed-post_reset-Inv c d e o p w h = ground arith

engage_post_reset-Keeps :
    (c : Ctx) (e : EpisodeState) (at : MonoNs)
    → PostReset e
    → c.s.pending_lease ≡ none
    → Inv (at_episode c (some e)).s
    → Keeps (engage_post_reset (at_episode c (some e)) at)
unfolding engage_post_reset
engage_post_reset-Keeps c e at f p v = ground arith

module _ (c : Ctx) (e : EpisodeState) (at : MonoNs) where
  enter_post_reset-Keeps :
      (o : TerminalOutcome) (reason : String)
      → is_none e.reset_window ≡ true
      → Keeps (enter_post_reset (at_episode c (some e)) at o reason)
  unfolding enter_post_reset
  enter_post_reset-Keeps o reason w =
      after_Closes _ pinned Phase.post_reset true _ _
        (close_run-Closes c pinned at Phase.post_reset reason (some o) true)
        λ d h.
          by_episode (λ x. Inv x.s → Keeps (engage_post_reset x at)) d
            (record pinned { phase = Phase.post_reset }) h.episode
            (engage_post_reset-Keeps d (record pinned { phase = Phase.post_reset }) at
              (refl, refl, w) h.pending_lease)
            (Closed-post_reset-Inv _ d pinned o refl w h)
    where
      pinned : EpisodeState
      pinned = record e { pinned_outcome = some o }

pub request_terminal-Keeps :
    (c : Ctx) (e : EpisodeState) (at : MonoNs) (o : TerminalOutcome) (reason : String)
    → c.s.episode ≡ some e
    → post_reset? e.phase ≡ false
    → window_fits e e.reset_window ≡ true
    → Keeps (request_terminal c at o reason)
unfolding request_terminal
request_terminal-Keeps c e at o reason q p w =
    by_episode (λ x. Keeps (request_terminal x at o reason)) c e q
      (ground (
        arith,
        enter_post_reset-Keeps c e at o reason,
        close_run-Keeps (at_episode c (some e)) e at o reason (some o) true refl,
      ))

post_reset_result_pinned :
    (c : Ctx) (e : EpisodeState) (at : MonoNs) (result : Bool) (detail : String)
    (o : Option TerminalOutcome)
    → is_some o ≡ true
    → no_post_window e.reset_window ≡ true
    → Keeps (
        apply_post_reset_result
          (at_episode c (some (record e { pinned_outcome = o })))
          at
          result
          detail)
unfolding apply_post_reset_result
post_reset_result_pinned c e at result detail none p w = cc
post_reset_result_pinned c e at true detail (some o) p w = close_run-Keeps _ _ at o _ _ true refl w
post_reset_result_pinned c e at false detail (some o) p w = close_run-Keeps _ _ at o _ _ true refl w

pub apply_post_reset_result-Keeps :
    (c : Ctx) (e : EpisodeState) (at : MonoNs) (result : Bool) (detail : String)
    → c.s.episode ≡ some e
    → is_some e.pinned_outcome ≡ true
    → no_post_window e.reset_window ≡ true
    → Keeps (apply_post_reset_result c at result detail)
apply_post_reset_result-Keeps c e at result detail q p w =
    by_episode (λ x. Keeps (apply_post_reset_result x at result detail)) c e q
      (post_reset_result_pinned c e at result detail e.pinned_outcome p w)

timed_out_pinned :
    (c : Ctx) (e : EpisodeState) (at : MonoNs) (o : Option TerminalOutcome)
    → is_some o ≡ true
    → no_post_window e.reset_window ≡ true
    → Keeps (
        close_timed_out
          (at_episode c (some (record e { pinned_outcome = o })))
          at
          (some ResetKind.post))
unfolding close_timed_out
timed_out_pinned c e at none p w = cc
timed_out_pinned c e at (some o) p w = close_run-Keeps _ _ at o _ _ true refl w

-- A POST window times out in a pinned episode only.
abbrev pub pinned_if_post : EpisodeState → Option ResetKind → Bool
pinned_if_post e none = true
pinned_if_post e (some ResetKind.pre) = true
pinned_if_post e (some ResetKind.post) = is_some e.pinned_outcome

pub close_timed_out-Keeps :
    (c : Ctx) (e : EpisodeState) (at : MonoNs) (k : Option ResetKind)
    → pinned_if_post e k ≡ true
    → no_post_window e.reset_window ≡ true
    → Keeps (close_timed_out (at_episode c (some e)) at k)
unfolding close_timed_out
close_timed_out-Keeps c e at none p w = close_run-Keeps _ _ at _ _ _ true refl w
close_timed_out-Keeps c e at (some ResetKind.pre) p w = close_run-Keeps _ _ at _ _ _ true refl w
close_timed_out-Keeps c e at (some ResetKind.post) p w =
    timed_out_pinned c e at e.pinned_outcome p w
