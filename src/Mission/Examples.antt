-- ===== src/Mission/Examples.antt =====
-- The theorems about the mission loop at concrete inputs, and tests.
use open_supervisor.Mission.Advanced.{idle-counts, next_of}
use open_supervisor.Verify.Result.{verify_checklist}
use open_supervisor.Mission.Guarded.{times_prompted}
use open_supervisor.Mission.World.{
  World, handle_session_compacted, Around, resume, sent, finish, handle_mission_complete, remove_at,
}
use open_supervisor.Loop.Guard.{is_compaction_safe}
use open_supervisor.Loop.Circuit.{is_circuit_open, should_trip_circuit}
use open_supervisor.Mission.CountedLaws.{run-Counting}
use open_supervisor.Mission.Counted.{Counting, Failing}
use open_supervisor.Mission.Fired.{fire-outcome, is_free}
use open_supervisor.Verify.Todos.{count_from, count_matches}
use open_supervisor.Recovery.Regex.{units, lower}
use open_supervisor.Mission.TrackerLaws.{stagnation_counts_checks, checks}
use open_supervisor.Mission.Compacted.{compacted_not_prompted}
use open_supervisor.Verify.Checklist.{holds, absent}
use open_supervisor.Mission.Tracker.{
  is_stagnant, track_progress, mark_injection_performed, TrackerState, get_stagnation_count,
}
use open_supervisor.Mission.Runs.{finishes, answers, fires, resumes, idles_at, Event, step, run}
use open_supervisor.Mission.LoopState.{
  write_loop_state, increment_iteration, read_loop_state, clear_loop_state, malformed, succeeds,
  missing, stored, MissionLoopState, LoopFile,
}
use open_supervisor.Verify.Completion.{verify_mission_completion, Files}
use open_supervisor.Todos.Text.{Text}
use open_supervisor.Mission.State.{cancel_countdown, get_state, cleanup, Continuation}
use open_supervisor.Mission.Handler.{verify, inject_continuation, idle, fire}
use open_supervisor.Prelude.{
  ◌++◌, length, arith, not, ◌&&◌, refl, [], if◌then◌else◌, none, false, ◌∷◌, map, ◌≡◌, some, true,
  List, ℕ,
}
use open_supervisor.Prelude.Map
use open_supervisor.Mission.State

abbrev same : Text → Text
same s = map lower s

abbrev open_files : Files
open_files = record {
  checklist = absent;
  todo = holds (units "- [x] one\n- [ ] two");
  sync = absent;
}

abbrev done_files : Files
done_files = record { checklist = absent; todo = holds (units "- [x] one"); sync = absent }

abbrev around : Files → Around
around files = record {
  main_session = some "s";
  recovering = false;
  background = false;
  files = files;
  first_write = succeeds;
  second_write = succeeds;
  removes = true;
}

abbrev loop : MissionLoopState
loop = record {
  active = true;
  iteration = 1;
  max_iterations = 1;
  prompt = "build it";
  session_id = "s";
  started_at = 5;
  last_activity = none;
  last_progress = none;
  stagnation_count = none;
}

abbrev start : World
start = record {
  store = State.new;
  file = stored loop;
  trackers = [];
  circuits = [];
  compactions = [];
  indices = 0 ∷ 0 ∷ 0 ∷ 0 ∷ [];
  waiting = [];
  completing = [];
  prompts = [];
  unanswered = [];
}

abbrev events : List Event
events =
    idles_at (around open_files) 10000 "s"
    ∷ resumes 0
    ∷ fires (around open_files) 13000 0
    ∷ answers 13001 0 true
    ∷ idles_at (around open_files) 20000 "s"
    ∷ []

abbrev iteration_of : LoopFile → ℕ
iteration_of missing = 0
iteration_of malformed = 0
iteration_of (stored l) = l.iteration

-- The second iteration is past the maximum, and the third too.
run_test :
    let w = run same events start in
    (iteration_of w.file ≡ 3) × (length w.prompts ≡ 1) × (length w.waiting ≡ 1)
unfolding run step idle resume fire sent inject_continuation verify get_state cancel_countdown
    remove_at read_loop_state increment_iteration write_loop_state verify_mission_completion
    verify_checklist count_matches count_from track_progress is_stagnant should_trip_circuit
    is_circuit_open is_compaction_safe mark_injection_performed Map.get Map.set
run_test = (refl, refl, refl)

-- Once the todos are done the file is gone.
done_test :
    let w =
      run same
        (events ++ (resumes 0 ∷ fires (around done_files) 23000 0 ∷ finishes 0 ∷ []))
        start in
    (iteration_of w.file ≡ 0) × (length w.prompts ≡ 1)
unfolding run step idle resume fire sent finish handle_mission_complete clear_loop_state cleanup
    inject_continuation verify get_state cancel_countdown remove_at read_loop_state
    increment_iteration write_loop_state verify_mission_completion verify_checklist count_matches
    count_from track_progress is_stagnant should_trip_circuit is_circuit_open is_compaction_safe
    mark_injection_performed Map.get Map.set
done_test = (refl, refl)

failing : Failing same (around open_files)
unfolding verify_mission_completion verify_checklist count_matches count_from
failing = record { fails = λ indices. refl; first = refl; second = refl }

run-Counting_example : Counting loop 1 (run same events start)
unfolding run step idle resume fire sent inject_continuation verify get_state cancel_countdown
    remove_at
run-Counting_example =
    run-Counting loop 1 same events start (failing, (tt, (failing, (tt, (failing, tt)))))
      (record {
        loop = loop;
        is_stored = refl;
        counts = refl;
        session = refl;
        limit = refl;
        prompt = refl;
        active = refl;
      })

abbrev continuation : Continuation
continuation = record { session = "s"; loop = loop; stagnant = false }

abbrev counting_down : World
counting_down = record start { store = record State.new { timers = (0, continuation) ∷ [] } }

fire-outcome_example :
    ((fire same (around open_files) 13000 0 counting_down).prompts ≡ (
      if is_free (around open_files) 13000 continuation counting_down
        && not (verify_mission_completion same open_files (0 ∷ 0 ∷ 0 ∷ 0 ∷ [])).1.passed
      then continuation ∷ []
      else []))
    × ((fire same (around open_files) 13000 0 counting_down).file ≡ (
        if is_free (around open_files) 13000 continuation counting_down
          && (verify_mission_completion same open_files (0 ∷ 0 ∷ 0 ∷ 0 ∷ [])).1.passed
        then (clear_loop_state true (stored loop)).0
        else stored loop))
fire-outcome_example =
    fire-outcome same (around open_files) 13000 0 0 continuation counting_down refl

compacted_not_prompted_example :
    times_prompted "s" (run same events (handle_session_compacted 9000 "s" start)).prompts ≡ 0
unfolding handle_session_compacted
compacted_not_prompted_example = compacted_not_prompted same "s" 9000 events start refl

abbrev tracker : TrackerState
tracker = record {
  stagnation_count = 0;
  last_incomplete_count = some 4;
  last_snapshot = none;
  awaiting_check = false;
  count_completed = none;
  last_accessed_at = 0;
}

stagnation_counts_checks_example :
    get_stagnation_count "s" (
      checks "s"
        ((20, 4) ∷ (30, 5) ∷ (40, 5) ∷ [])
        (mark_injection_performed 10 "s" (("s", tracker) ∷ [])))
    ≡ 3
unfolding Map.get
stagnation_counts_checks_example =
    stagnation_counts_checks "s" ((20, 4) ∷ (30, 5) ∷ (40, 5) ∷ []) 10 4 (("s", tracker) ∷ [])
      tracker refl refl (omega arith, (omega arith, (omega arith, tt)))

-- The maximum of iterations of the loop is 1, which it has.
idle-counts_example :
    let progress = (verify_mission_completion same open_files start.indices).1.todo_progress in
    ((idle same (around open_files) 10000 "s" start).file ≡ stored (next_of 10000 progress loop))
    × (length (idle same (around open_files) 10000 "s" start).waiting ≡ 1)
unfolding get_state should_trip_circuit Map.get
idle-counts_example =
    idle-counts same (around open_files) 10000 "s" loop start refl refl refl refl refl refl refl
      refl failing
