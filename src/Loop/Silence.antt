-- ===== src/Loop/Silence.antt =====
-- src/core/loop/todo-continuation.ts: after handleAbort a session is not prompted until its user is back.
use open_supervisor.Loop.Handlers.{
  in_grace, handle_session_error, aborted, failed, messaged, cleanup_session, handle_user_message,
  handle_abort,
}
use open_supervisor.Loop.Countdown.{cancelled, got, cancel_countdown, World, ContinuationState}
use open_supervisor.Loop.Aborted.{inject-Silent, fire-Silent, resume-Silent, idle-Silent}
use open_supervisor.Loop.CountdownLaws.{
  prunes, cleans, aborts, errs, get_state-GotSilent, messages, injects, fires, resumes,
  cancel_countdown-Silent, is_aborting-cancelled, idles_at, is_aborting_in, put-Silent, keeps_abort,
  times_prompted, Event, Silent, GotSilent, step, run,
}
use open_supervisor.Prelude.{
  arith, refl, sym, [], none, inr, Option, inl, some, ◌∙◌, Bool-cases, ◌∷◌, true, ap, false, ◌≡◌,
  all, str_eq, Bool, List, String, ℕ,
}
use open_supervisor.Prelude.Map

messaged-Silent :
    (now : ℕ) (session other : String) (n : ℕ) (s : ContinuationState) (w : World)
    → str_eq other session ≡ false
    → GotSilent session other n (s, w)
    → Silent session n (messaged now other (s, w))
messaged-Silent now session other n s w apart q =
    elim (Bool-cases (in_grace now s.countdown_started_at)) [
      | inl grace ↦ rw grace q.world
      | inr over ↦ rw over (
          put-Silent session other n
            (record (cancelled s) { is_aborting = false; abort_detected_at = none }) _
            (λ same. cc (sym same ∙ apart))
            (record { aborting = q.world.aborting; silent = q.world.silent }))
    ]

failed-Silent :
    (now : ℕ) (session other : String) (is_abort : Bool) (n : ℕ) (s : ContinuationState) (w : World)
    → GotSilent session other n (s, w)
    → Silent session n (failed now other is_abort (s, w))
failed-Silent now session other true n s w q =
    put-Silent session other n _ _
      (λ same. is_aborting-cancelled (record s { abort_detected_at = some now }) ∙ q.state same)
      (record { aborting = q.world.aborting; silent = q.world.silent })
failed-Silent now session other false n s w q =
    put-Silent session other n _ _ (λ same. is_aborting-cancelled s ∙ q.state same)
      (record { aborting = q.world.aborting; silent = q.world.silent })

aborted-Silent :
    (now : ℕ) (session other : String) (n : ℕ) (s : ContinuationState) (w : World)
    → GotSilent session other n (s, w)
    → Silent session n (aborted now other (s, w))
aborted-Silent now session other n s w q =
    put-Silent session other n _ _
      (λ same.
        is_aborting-cancelled (record s { is_aborting = true; abort_detected_at = some now }))
      (record { aborting = q.world.aborting; silent = q.world.silent })

cleanup_session-Silent :
    (session other : String) (n : ℕ) (w : World)
    → str_eq other session ≡ false
    → Silent session n w
    → Silent session n (cleanup_session other w)
unfolding cleanup_session
cleanup_session-Silent session other n w apart k =
    let w1 = cancel_countdown other w in
    let q = cancel_countdown-Silent session other n w k in
    record {
      aborting = rw (Map.get-delete other session w1.states, apart) q.aborting;
      silent = q.silent;
    }

step-Silent :
    (e : Event) (session : String) (n : ℕ) (w : World)
    → keeps_abort session e ≡ true
    → Silent session n w
    → Silent session n (step e w)
unfolding step handle_user_message handle_session_error handle_abort
step-Silent (idles_at g now other) session n w h k = idle-Silent g now session other n w k
step-Silent (resumes i work) session n w h k = resume-Silent i work session n w k
step-Silent (fires i) session n w h k = fire-Silent i session n w k
step-Silent (injects g work now i) session n w h k = inject-Silent g work now i session n w k
step-Silent (messages now other) session n w h k =
    messaged-Silent now session other n _ _ (ground (arith, h))
      (get_state-GotSilent session other n now w k)
step-Silent (errs now other is_abort) session n w h k =
    failed-Silent now session other is_abort n _ _ (get_state-GotSilent session other n now w k)
step-Silent (aborts now other) session n w h k =
    aborted-Silent now session other n _ _ (get_state-GotSilent session other n now w k)
step-Silent (cleans other) session n w h k =
    cleanup_session-Silent session other n w (ground (arith, h)) k
step-Silent (prunes now) session n w h k = cc h

run-Silent :
    (es : List Event) (session : String) (n : ℕ) (w : World)
    → all (keeps_abort session) es ≡ true
    → Silent session n w
    → Silent session n (run es w)
unfolding run
run-Silent [] session n w h k = k
run-Silent (e ∷ es) session n w h k = elim (Bool-cases (keeps_abort session e)) [
  | inl kept ↦ run-Silent es session n (step e w) (rw kept at h) (step-Silent e session n w kept k)
  | inr ended ↦ cc (rw ended at h)
]

handle_abort-Silent :
    (now : ℕ) (session : String) (w : World)
    → Silent session (times_prompted session w.prompts) (handle_abort now session w)
unfolding handle_abort
handle_abort-Silent now session w = by_state (Map.get session w.states)
  where
    fields :
        (s : ContinuationState) (v : World)
        → v.prompts ≡ w.prompts
        → Silent session (times_prompted session w.prompts) (aborted now session (s, v))
    fields s v e = record {
      aborting =
          ap is_aborting_in (Map.get-set_self session _ v.states)
          ∙ is_aborting-cancelled (record s { is_aborting = true; abort_detected_at = some now });
      silent = ap (times_prompted session) e;
    }

    by_state :
        (o : Option ContinuationState)
        → Silent session
            (times_prompted session w.prompts)
            (aborted now session (got now session o w))
    by_state none = let r = got now session none w in fields r.0 r.1 refl
    by_state (some s) = let r = got now session (some s) w in fields r.0 r.1 refl

-- After handleAbort a session is not prompted, in whatever order its handlers and timers go on and
-- whatever other sessions do, until its user sends a message, the session is cleaned up, or states
-- are pruned.
pub aborted_not_prompted :
    (now : ℕ) (session : String) (w : World) (es : List Event)
    → all (keeps_abort session) es ≡ true
    → times_prompted session (run es (handle_abort now session w)).prompts
      ≡ times_prompted session w.prompts
aborted_not_prompted now session w es h =
    (run-Silent es session (times_prompted session w.prompts) (handle_abort now session w) h
      (handle_abort-Silent now session w)).silent
