-- ===== src/Loop/Orphan.antt =====
-- src/core/loop/todo-continuation.ts: a session that is cleaned up while its idle handler waits.
use open_supervisor.Loop.Handlers.{
  started_in, resumed, remove_at, messaged, handle_user_message, has_pending_continuation, resume,
  cleanup_session,
}
use open_supervisor.Loop.Countdown.{got, cancelled, cancel_in, Waiting, ContinuationState, World}
use open_supervisor.Prelude.{
  ◌∙◌, ap, Bool, ◌+◌, [], false, refl, ◌∷◌, true, ◌++◌, some, none, get_elem?, ◌≡◌, Option, String,
  ℕ,
}
use open_supervisor.Prelude.Map

-- What a cleanup does not change.
record Cleaned (session : String) (w v : World) : Type 0 where
  gone : Map.get session v.states ≡ none
  idles : v.idles ≡ w.idles
  started : v.started ≡ w.started

cleanup_session-Cleaned :
    (session : String) (w : World) → Cleaned session w (cleanup_session session w)
unfolding cleanup_session
cleanup_session-Cleaned session w = by_state (Map.get session w.states)
  where
    deleted : World → World
    deleted v = record v { states = Map.delete session v.states }

    by_state : (o : Option ContinuationState) → Cleaned session w (deleted (cancel_in session o w))
    by_state none = record {
      gone = Map.get-delete_self session w.states;
      idles = refl;
      started = refl;
    }
    by_state (some s) = record {
      gone = Map.get-delete_self session (Map.set session (cancelled s) w.states);
      idles = refl;
      started = refl;
    }

-- The idle handler goes on in a world that has no state of its session.
orphaned : World → Waiting → ℕ → World
orphaned v h i = record v {
  idles = remove_at i v.idles;
  timers = v.timers ++ ((v.started, h.session) ∷ []);
  started = v.started + 1;
}

resume-orphaned :
    (i : ℕ) (h : Waiting) (v : World)
    → get_elem? v.idles i ≡ some h
    → Map.get h.session v.states ≡ none
    → resume i true v ≡ orphaned v h i
unfolding resume orphaned
resume-orphaned i h v e gone =
    ap (λ o. resumed i true o v) e ∙ ap (λ o. after (started_in h o left)) gone
  where
    left : World
    left = record v { idles = remove_at i v.idles }

    after : World → World
    after c = record c {
      timers = c.timers ++ ((v.started, h.session) ∷ []);
      started = v.started + 1;
    }

-- A session that is cleaned up while its idle handler waits gets a countdown all the same: no pending
-- continuation is reported for it, and a message of the user does not stop the timer.
pub cleaned_up_resumes :
    (now i : ℕ) (h : Waiting) (w : World)
    → get_elem? w.idles i ≡ some h
    → let v = resume i true (cleanup_session h.session w) in
      (has_pending_continuation h.session v ≡ false)
      × ((handle_user_message now h.session v).timers
          ≡ (cleanup_session h.session w).timers ++ ((w.started, h.session) ∷ []))
unfolding has_pending_continuation handle_user_message orphaned
cleaned_up_resumes now i h w e =
    let c = cleanup_session-Cleaned h.session w in
    let v = cleanup_session h.session w in
    let q : resume i true v ≡ orphaned v h i =
      resume-orphaned i h v (ap (λ xs. get_elem? xs i) c.idles ∙ e) c.gone in
    (
      ap (has_pending_continuation h.session) q ∙ ap pending_in c.gone,
      ap (λ u. (handle_user_message now h.session u).timers) q
          ∙ ap (λ o. (messaged now h.session (got now h.session o (orphaned v h i))).timers) c.gone
          ∙ ap (λ n. v.timers ++ ((n, h.session) ∷ [])) c.started,
    )
  where
    pending_in : Option ContinuationState → Bool
    pending_in o = elim o [
      | none ↦ false
      | some s ↦ elim s.countdown_timer [ none ↦ false | some id ↦ true ]
    ]
