-- ===== src/Mission/Handler.antt =====
-- src/core/loop/mission-loop-handler.ts: the handlers that verify the mission. `idle` is handleMissionIdle up to
-- its toast, and `fire` the callback of its timer with injectContinuation up to its prompt.
use open_supervisor.Mission.World.{handle_mission_complete, remove_at, World, Around}
use open_supervisor.Pools.Strings.{is_truthy}
use open_supervisor.Loop.Circuit.{should_trip_circuit, is_circuit_open, CircuitStates}
use open_supervisor.Loop.Guard.{is_compaction_safe, CompactionStates}
use open_supervisor.Mission.Tracker.{default_stagnation_threshold, is_stagnant, track_progress}
use open_supervisor.Mission.LoopState.{
  increment_iteration, write_loop_state, read_loop_state, LoopFile, MissionLoopState,
}
use open_supervisor.Verify.Completion.{verify_mission_completion, Files, VerificationResult}
use open_supervisor.Todos.Text.{Text}
use open_supervisor.Mission.State.{
  put, SessionState, cancel_countdown, get_state, Continuation, Store,
}
use open_supervisor.Prelude.{
  ◌-◌, ltb, str_eq, ◌&&◌, none, ◌==◌, not, [], some, ◌++◌, ◌∷◌, if◌then◌else◌, false, String, Bool,
  List, get_elem?, Option, ℕ,
}

abbrev pub min_time_between_checks_ms : ℕ
min_time_between_checks_ms = 3000

abbrev pub too_soon : ℕ → Option ℕ → Bool
too_soon now none = false
too_soon now (some last) = not (last == 0) && ltb (now - last) min_time_between_checks_ms

abbrev pub is_other : String → Option String → Bool
is_other session none = false
is_other session (some main) = is_truthy main && not (str_eq session main)

-- The end of handleMissionIdle before its toast: the loop was incremented, `stored` says to what.
abbrev pub noted :
    Around → String → ℕ → Bool → ℕ × ℕ → LoopFile × Option MissionLoopState → World → World
noted a session ident stagnant progress (file, none) w = record w { file = file }
noted a session ident stagnant progress (file, some loop) w =
    let now_loop = record loop { last_progress = some progress } in
    record w {
      file = (write_loop_state a.second_write now_loop).0;
      waiting =
          w.waiting
          ++ (record {
            ident = ident;
            after = record { session = session; loop = now_loop; stagnant = stagnant };
          }
              ∷ []);
    }

-- handleMissionIdle once the circuit is known not to trip.
abbrev pub advance : Around → ℕ → String → ℕ → VerificationResult → World → World
advance a now session ident v w =
    let r = track_progress now session v.todo_incomplete none w.trackers in
    noted a session ident (is_stagnant session default_stagnation_threshold r.0) v.todo_progress
      (increment_iteration a.first_write now w.file) (record w { trackers = r.0 })

abbrev pub unless_tripped : Around → ℕ → String → ℕ → VerificationResult → World → World
unless_tripped a now session ident v w =
    let c = should_trip_circuit now session w.circuits in
    let checked = record w { circuits = c.0 } in
    if c.1 then checked else advance a now session ident v checked

abbrev pub idle_verified :
    Around → ℕ → String → ℕ → MissionLoopState → List ℕ × VerificationResult → World → World
idle_verified a now session ident loop v w =
    let checked = record w { indices = v.0 } in
    if v.1.passed
    then handle_mission_complete a.removes loop checked
    else unless_tripped a now session ident v.1 checked

abbrev pub inject_verified : Around → Continuation → List ℕ × VerificationResult → World → World
inject_verified a c v w =
    let checked = record w { indices = v.0 } in
    if v.1.passed
    then handle_mission_complete a.removes c.loop checked
    else record checked { prompts = c ∷ w.prompts; unanswered = w.unanswered ++ (c.session ∷ []) }

-- `to_lower` is the `toLowerCase` of the platform.
module _ (to_lower : Text → Text) where
  unfoldable pub verify : Files → World → List ℕ × VerificationResult
  verify files w = verify_mission_completion to_lower files w.indices

  -- handleMissionIdle with the loop that it read.
  abbrev pub idle_loop : Around → ℕ → String → ℕ → Option MissionLoopState → World → World
  idle_loop a now session ident none w = w
  idle_loop a now session ident (some loop) w =
      if not loop.active
      then w
      else if not (str_eq loop.session_id session)
      then w
      else idle_verified a now session ident loop (verify a.files w) w

  abbrev pub idle_checked : Around → ℕ → String → ℕ → World → World
  idle_checked a now session ident w =
      if is_other session a.main_session
      then w
      else if a.recovering
      then w
      else if a.background
      then w
      else idle_loop a now session ident (read_loop_state w.file) w

  abbrev pub idle_in : Around → ℕ → String → SessionState × Store → World → World
  idle_in a now session (s, store) w =
      if too_soon now s.last_check_time
      then record w { store = store }
      else idle_checked a now session s.ident (record w {
        store =
            cancel_countdown session (put session (record s { last_check_time = some now }) store);
      })

  unfoldable pub idle : Around → ℕ → String → World → World
  idle a now session w = idle_in a now session (get_state now session w.store) w

  abbrev pub unless_unsafe : Around → ℕ → Continuation → CompactionStates × Bool → World → World
  unless_unsafe a now c (states, safe) w =
      let checked = record w { compactions = states } in
      if not safe then checked else inject_verified a c (verify a.files checked) checked

  abbrev pub unless_open : Around → ℕ → Continuation → CircuitStates × Bool → World → World
  unless_open a now c (circuits, open_now) w =
      let checked = record w { circuits = circuits } in
      if open_now
      then checked
      else unless_unsafe a now c (is_compaction_safe now c.session now checked.compactions) checked

  -- `injectContinuation` with the state it gets, up to its prompt.
  abbrev pub inject_in : Around → ℕ → Continuation → SessionState × Store → World → World
  inject_in a now c (s, store) w =
      let got = record w { store = store } in
      if s.is_aborting
      then got
      else if a.background
      then got
      else if a.recovering
      then got
      else unless_open a now c (is_circuit_open now c.session got.circuits) got

  unfoldable pub inject_continuation : Around → ℕ → Continuation → World → World
  inject_continuation a now c w = inject_in a now c (get_state now c.session w.store) w

  abbrev pub fire_for : Around → ℕ → ℕ → Option (ℕ × Continuation) → World → World
  fire_for a now i none w = w
  fire_for a now i (some (id, c)) w =
      let left : Store = record w.store { timers = remove_at i w.store.timers } in
      inject_continuation a now c (record w { store = cancel_countdown c.session left })

  -- The timer at a place of `timers` is over.
  unfoldable pub fire : Around → ℕ → ℕ → World → World
  fire a now i w = fire_for a now i (get_elem? w.store.timers i) w
