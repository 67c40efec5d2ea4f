-- ===== src/Channel/Examples.antt =====
-- The theorem about src/core/queue/async-queue.ts at a concrete input, and a test.
use open_supervisor.Channel.Idle.{run-new-IsIdle, IsIdle}
use open_supervisor.Channel.{[], closes, pushes, next, push, nexts, Call, step, new, run}
use open_supervisor.Prelude.{refl, ◌≡◌, ◌∷◌, List, ℕ}

abbrev talk : List (Call ℕ)
talk = nexts 0 ∷ pushes 7 ∷ pushes 8 ∷ nexts 1 ∷ nexts 2 ∷ closes ∷ []

talk_test : (run {T = ℕ} new (nexts 0 ∷ nexts 1 ∷ pushes 7 ∷ [])).resolvers ≡ 1 ∷ []
unfolding run step new push next
talk_test = refl

run-new-IsIdle_example : IsIdle (run new talk)
run-new-IsIdle_example = run-new-IsIdle talk
