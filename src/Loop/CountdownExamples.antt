-- ===== src/Loop/CountdownExamples.antt =====
-- The theorems about src/core/loop/todo-continuation.ts at concrete inputs, and a test.
use open_supervisor.Loop.Handlers.{
  handle_user_message, has_pending_continuation, inject, cleanup_session, fire, resume, idle,
  handle_abort,
}
use open_supervisor.Loop.Countdown.{new, World, Guards, Waiting}
use open_supervisor.Loop.Orphan.{cleaned_up_resumes}
use open_supervisor.Loop.Silence.{aborted_not_prompted}
use open_supervisor.Loop.CountdownLaws.{
  injects, fires, resumes, idles_at, Event, step, run, times_prompted,
}
use open_supervisor.Prelude.{◌++◌, refl, some, [], ◌≡◌, get_elem?, ◌∷◌, false, true, List}
use open_supervisor.Prelude.Map

abbrev calm : Guards
calm = record { other_session = false; recovering = false; background = false }

abbrev waiting : World
waiting = run (idles_at calm 100000 "s" ∷ []) new

-- A countdown runs out and the session is prompted.
abbrev prompted : List Event
prompted = idles_at calm 100000 "s" ∷ resumes 0 true ∷ fires 0 ∷ injects calm true 102000 0 ∷ []

prompted_test : (run prompted new).prompts ≡ "s" ∷ []
unfolding run step idle resume fire inject Map.get Map.set
prompted_test = refl

-- The abort comes while the idle handler waits.
aborted_not_prompted_example :
    times_prompted "s"
      (run
        (resumes 0 true ∷ fires 0 ∷ injects calm true 103000 0 ∷ [])
        (handle_abort 101000 "s" waiting)).prompts
    ≡ times_prompted "s" waiting.prompts
aborted_not_prompted_example =
    aborted_not_prompted 101000 "s" waiting
      (resumes 0 true ∷ fires 0 ∷ injects calm true 103000 0 ∷ []) refl

abbrev handler : Waiting
handler = record { session = "s"; ident = 0; since = 100000 }

waiting_handler : get_elem? waiting.idles 0 ≡ some handler
unfolding run step idle Map.get Map.set
waiting_handler = refl

cleaned_up_resumes_example :
    let v = resume 0 true (cleanup_session "s" waiting) in
    (has_pending_continuation "s" v ≡ false)
    × ((handle_user_message 101000 "s" v).timers
        ≡ (cleanup_session "s" waiting).timers ++ ((waiting.started, "s") ∷ []))
cleaned_up_resumes_example = cleaned_up_resumes 101000 0 handler waiting waiting_handler
