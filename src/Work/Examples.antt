-- ===== src/Work/Examples.antt =====
-- The theorems about src/core/queue/work-pool.ts and async-utils.ts at concrete inputs.
use open_supervisor.Work.CrewLaws.{results_in_order}
use open_supervisor.Work.Retry.{
  retry_with_backoff-retries, threw, returned, default_options, Attempt, retry_with_backoff,
}
use open_supervisor.Work.Crew.{returns, takes, step, start, Event, run}
use open_supervisor.Prelude.{
  arith, refl, some, ltb, ◌≡◌, [], if◌then◌else◌, map, ◌∷◌, ◌+◌, ◌*◌, List, ℕ,
}

abbrev add_index : ℕ → ℕ → ℕ
add_index item index = item * 10 + index

-- Two workers on three items; the first call to start is the last one to return.
abbrev events : List Event
events = takes ∷ takes ∷ returns 0 ∷ takes ∷ returns 0 ∷ returns 0 ∷ takes ∷ takes ∷ []

abbrev three : List ℕ
three = 5 ∷ 6 ∷ 7 ∷ []

results_in_order_example :
    (run add_index (start 2 three) events).results ≡ map some (50 ∷ 61 ∷ 72 ∷ [])
unfolding run step start
results_in_order_example = results_in_order add_index three 2 events refl refl refl

-- The third call is the first that returns.
abbrev calls : ℕ → Attempt ℕ
calls n = if ltb n 2 then threw "busy" else returned n

retry_with_backoff-retries_example :
    retry_with_backoff default_options calls ≡ (returned 2, 1000 ∷ 2000 ∷ [])
retry_with_backoff-retries_example =
    retry_with_backoff-retries default_options calls (omega arith) (omega arith)
