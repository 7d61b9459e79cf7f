-- ===== src/Session/Safety/Episodes.antt =====
-- The lifecycle handlers of session.rs keep the invariant and do not panic.
use waddle_sdk.Prelude.{Bool, true, false, ◌≡◌, refl, Option, none, some, String, ℕ, is_none, arith}
use waddle_sdk.Outcome.{done, ◌>>=◌}
use waddle_sdk.Types.Time.{MonoNs}
use waddle_sdk.Types.{TerminalOutcome, ResetKind}
use waddle_sdk.Session.Episode.{
  EpisodeState, ActiveClaim, ResetWindowState, WindowSpec, AgentInvite,
}
use waddle_sdk.Session.Emission.{Body, MarkKind, event_of}
use waddle_sdk.Session.Event.{OpenRequest}
use waddle_sdk.Session.Context.{Ctx, emit}
use waddle_sdk.Session.Phases.{is_active, resetting?}
use waddle_sdk.Session.Handlers.Episodes.{
  on_episode_open, on_reset_result, on_verification_result, on_start, on_gate_tick, on_terminate,
  on_judge_result, on_mark, opened_episode, acquire_initial, open_pre_window, announce_open,
}
use waddle_sdk.Session.Safety.Invariant.{Inv, Keeps}
use waddle_sdk.Session.Safety.Closing.{at_episode, by_episode}
use waddle_sdk.Session.Safety.Resets.{request_terminal-Keeps}
use waddle_sdk.Session.Safety.Windows.{apply_reset_result-Keeps}

opened-Inv :
    (c : Ctx) (o : Option EpisodeState) (r : OpenRequest)
    → is_active o ≡ false
    → Inv (at_episode c o).s
    → Inv (at_episode c (some (opened_episode r))).s
unfolding opened_episode
opened-Inv c none r a v = ground arith
opened-Inv c (some e) r a v = ground arith

acquire_initial-Keeps :
    (c : Ctx) (e : EpisodeState)
    → Inv (at_episode c (some e)).s
    → Keeps (done (acquire_initial (at_episode c (some e))))
unfolding acquire_initial
acquire_initial-Keeps c e v = ground arith

acquire_at :
    (c : Ctx) (e : EpisodeState) → c.s.episode ≡ some e → Inv c.s → Keeps (done (acquire_initial c))
acquire_at c e q =
    by_episode (λ x. Inv x.s → Keeps (done (acquire_initial x))) c e q (acquire_initial-Keeps c e)

windowed-Inv :
    (c : Ctx) (e : EpisodeState) (w : ResetWindowState) (b : ℕ)
    → w.kind ≡ ResetKind.pre
    → resetting? e.phase ≡ true
    → e.reset_ok ≡ false
    → is_none e.reset_window ≡ true
    → Inv (at_episode c (some e)).s
    → Inv
        (record (c.s) { episode = some (record e { reset_window = some w }); buffered_events = b })
windowed-Inv c e w b k p f n v = ground arith

abbrev claimed_by : Ctx → EpisodeState → Option ActiveClaim → Ctx
claimed_by c e k = record c { s = record (c.s) { episode = some e; claim = k } }

opened_parts :
    (c : Ctx) (e : EpisodeState) (k : Option ActiveClaim) (at : MonoNs) (spec : Option WindowSpec)
    → resetting? e.phase ≡ true
    → e.reset_ok ≡ false
    → is_none e.reset_window ≡ true
    → Inv (claimed_by c e k).s
    → Keeps (open_pre_window (claimed_by c e k) at spec >>= λ d. done (acquire_initial d))
unfolding open_pre_window
opened_parts c e k at none p f n v = acquire_initial-Keeps (claimed_by c e k) e v
opened_parts c e (some k) at (some spec) p f n v =
    acquire_initial-Keeps (claimed_by c e (some k)) e v
opened_parts c e none at (some spec) p f n v =
    acquire_at _ _ refl (windowed-Inv (claimed_by c e none) e _ _ refl p f n v)

-- A PRE window, if one is declared, and the first lease.
opened-Keeps :
    (c : Ctx) (e : EpisodeState) (at : MonoNs) (spec : Option WindowSpec)
    → resetting? e.phase ≡ true
    → e.reset_ok ≡ false
    → is_none e.reset_window ≡ true
    → Inv (at_episode c (some e)).s
    → Keeps (open_pre_window (at_episode c (some e)) at spec >>= λ d. done (acquire_initial d))
opened-Keeps c e = opened_parts c e c.s.claim

opened_at :
    (c : Ctx) (e : EpisodeState) (at : MonoNs) (spec : Option WindowSpec)
    → c.s.episode ≡ some e
    → resetting? e.phase ≡ true
    → e.reset_ok ≡ false
    → is_none e.reset_window ≡ true
    → Inv c.s
    → Keeps (open_pre_window c at spec >>= λ d. done (acquire_initial d))
opened_at c e at spec q p f n =
    by_episode (λ x. Inv x.s → Keeps (open_pre_window x at spec >>= λ d. done (acquire_initial d)))
      c e q (opened-Keeps c e at spec p f n)

announced :
    (c : Ctx) (r : OpenRequest) (at : MonoNs) (i : Option AgentInvite)
    → Inv (at_episode c (some (opened_episode (record r { agent_invite = i })))).s
    → Keeps (
        announce_open
          (at_episode c (some (opened_episode (record r { agent_invite = i }))))
          (record r { agent_invite = i })
          at)
unfolding announce_open opened_episode
announced c r at none v = opened_at _ _ at r.pre_window refl refl refl refl (ground arith)
announced c r at (some invite) v = opened_at _ _ at r.pre_window refl refl refl refl (ground arith)

pub on_episode_open-Keeps :
    (c : Ctx) (o : Option EpisodeState) (r : OpenRequest) (at : MonoNs)
    → Inv (at_episode c o).s
    → Keeps (on_episode_open (at_episode c o) r at)
unfolding on_episode_open
on_episode_open-Keeps c o r at v = ground (arith, opened-Inv c o r, announced c r at r.agent_invite)

abbrev marked : Ctx → EpisodeState → MarkKind → MonoNs → Ctx
marked c e kind at = emit (at_episode c (some e)) (event_of at (some e.id) (Body.mark kind))

module _ (c : Ctx) where
  pub on_verification_result-Keeps :
      (o : Option EpisodeState) (verified invalidated : Bool) (at : MonoNs)
      → Inv (at_episode c o).s
      → Keeps (on_verification_result (at_episode c o) verified invalidated at)
  unfolding on_verification_result
  on_verification_result-Keeps none verified invalidated at v = tt
  on_verification_result-Keeps (some e) verified invalidated at v = ground arith

  pub on_reset_result-Keeps :
      (o : Option EpisodeState) (result : Bool) (verified : Option Bool) (at : MonoNs)
      → Inv (at_episode c o).s
      → Keeps (on_reset_result (at_episode c o) result verified at)
  unfolding on_reset_result
  on_reset_result-Keeps none result verified at v = tt
  on_reset_result-Keeps (some e) result verified at v =
      ground (arith, apply_reset_result-Keeps (at_episode c (some e)) e at result verified refl)

  pub on_start-Keeps :
      (o : Option EpisodeState) (at : MonoNs)
      → Inv (at_episode c o).s
      → Keeps (on_start (at_episode c o) at)
  unfolding on_start
  on_start-Keeps none at v = tt
  on_start-Keeps (some e) at v = ground arith

  pub on_gate_tick-Keeps :
      (o : Option EpisodeState) (at : MonoNs)
      → Inv (at_episode c o).s
      → Keeps (on_gate_tick (at_episode c o) at)
  unfolding on_gate_tick
  on_gate_tick-Keeps none at v = v
  on_gate_tick-Keeps (some e) at v = ground arith

  pub on_terminate-Keeps :
      (o : Option EpisodeState) (outcome : TerminalOutcome) (reason : String) (at : MonoNs)
      → Inv (at_episode c o).s
      → Keeps (on_terminate (at_episode c o) outcome reason at)
  unfolding on_terminate
  on_terminate-Keeps none outcome reason at v = tt
  on_terminate-Keeps (some e) outcome reason at v =
      ground (arith, request_terminal-Keeps (at_episode c (some e)) e at outcome reason refl)

  pub on_judge_result-Keeps :
      (o : Option EpisodeState) (judge_id : String) (passed : Option Bool) (at : MonoNs)
      → Inv (at_episode c o).s
      → Keeps (on_judge_result (at_episode c o) judge_id passed at)
  unfolding on_judge_result
  on_judge_result-Keeps none judge_id passed at v = tt
  on_judge_result-Keeps (some e) judge_id passed at v = ground arith

  pub on_mark-Keeps :
      (o : Option EpisodeState) (kind : MarkKind) (at : MonoNs)
      → Inv (at_episode c o).s
      → Keeps (on_mark (at_episode c o) kind at)
  unfolding on_mark
  on_mark-Keeps none kind at v = tt
  on_mark-Keeps (some e) MarkKind.end_success at v = ground (
    arith,
    request_terminal-Keeps (marked c e MarkKind.end_success at) e at TerminalOutcome.success "mark"
        refl,
  )
  on_mark-Keeps (some e) MarkKind.end_failure at v = ground (
    arith,
    request_terminal-Keeps (marked c e MarkKind.end_failure at) e at TerminalOutcome.failure "mark"
        refl,
  )
  on_mark-Keeps (some e) MarkKind.end_abort at v = ground (
    arith,
    request_terminal-Keeps (marked c e MarkKind.end_abort at) e at TerminalOutcome.abort "mark"
        refl,
  )
  on_mark-Keeps (some e) _ at v = ground arith
