-- ===== src/Pools/ObjectsExamples.antt =====
-- The theorems about src/core/pool/object-pool.ts at concrete inputs, and a test.
use open_supervisor.Pools.ObjectsLaws.{run-new-IsSound, IsSound}
use open_supervisor.Pools.Objects.{
  prewarms, prewarm, releases_one, put_back, acquires_one, acquire_from, new, step, acquire, Call,
  release, run,
}
use open_supervisor.Prelude.{refl, [], ◌∷◌, true, ◌≡◌, List}

abbrev script : List Call
script = acquires_one ∷ acquires_one ∷ releases_one 0 true ∷ prewarms 3 ∷ acquires_one ∷ []

script_test : (run (new 2) script).in_use ≡ 2 ∷ 1 ∷ []
unfolding run step new acquire acquire_from release put_back prewarm
script_test = refl

run-new-IsSound_example : IsSound (run (new 2) script)
run-new-IsSound_example = run-new-IsSound 2 script
