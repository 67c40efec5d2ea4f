-- ===== src/Deque/Examples.antt =====
-- The theorems about src/core/queue/work-stealing-deque.ts at concrete inputs.
use open_supervisor.Deque.{some, none, get, put, copy, grow, steal, pop, ℕ, new_array, new, push}
use open_supervisor.Deque.Client.{pops, run-new, steals, pushes, list_run, step, Op, run}
use open_supervisor.Prelude.{refl, arith, [], ◌∷◌, ◌≡◌, List}

abbrev script : List (Op ℕ)
script = pushes 1 ∷ pushes 2 ∷ pushes 3 ∷ steals ∷ pops ∷ pops ∷ pops ∷ []

-- Capacity 2 grows twice.
script-run : run (new 2) script ≡ none ∷ none ∷ none ∷ some 1 ∷ some 3 ∷ some 2 ∷ none ∷ []
unfolding run step new new_array push pop steal grow copy put get
script-run = refl

run-new_example : run (new 2) script ≡ list_run [] script
run-new_example = run-new 2 script (omega arith)
