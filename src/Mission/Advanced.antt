-- ===== src/Mission/Advanced.antt =====
-- src/core/loop/mission-loop-handler.ts: the idle session of a mission that is not complete goes on.
use open_supervisor.Mission.Counted.{Failing}
use open_supervisor.Loop.Circuit.{should_trip_circuit}
use open_supervisor.Mission.Tracker.{default_stagnation_threshold, is_stagnant, track_progress}
use open_supervisor.Mission.State.{put, cancel_countdown, get_state}
use open_supervisor.Verify.Completion.{verify_mission_completion, VerificationResult}
use open_supervisor.Todos.Text.{Text}
use open_supervisor.Mission.World.{Waiting, Around, World}
use open_supervisor.Mission.Handler.{idle_loop, noted, is_other, advance, too_soon, verify, idle}
use open_supervisor.Mission.LoopState.{
  Write, incremented, succeeds, stored, write_loop_state, read_loop_state, increment_iteration,
  MissionLoopState,
}
use open_supervisor.Prelude.{
  [], ◌∷◌, length-append, arith, sym, ap, not, subst, none, str_eq, true, String, if◌then◌else◌,
  length, refl, some, false, ◌≡◌, ◌+◌, Bool, ℕ,
}

if_no {ℓ κ} :
    {A : Type ℓ} (P : A → Type κ) (b : Bool) (x : A) {y : A}
    → b ≡ false
    → P y
    → P (if b then x else y)
if_no P true x h p = cc h
if_no P false x h p = p

-- The world has the loop in its file and `n` waiting calls.
record Advanced (loop : MissionLoopState) (n : ℕ) (w : World) : Type 0 where
  is_stored : w.file ≡ stored loop
  waits : length w.waiting ≡ n

-- The loop after an idle event at a time, with the progress of the todos.
abbrev pub next_of : ℕ → ℕ × ℕ → MissionLoopState → MissionLoopState
next_of now progress loop = record loop {
  iteration = loop.iteration + 1;
  last_activity = some now;
  last_progress = some progress;
}

advance-Advanced :
    (a : Around) (now : ℕ) (session : String) (ident : ℕ) (v : VerificationResult)
    (loop : MissionLoopState) (w : World)
    → w.file ≡ stored loop
    → a.first_write ≡ succeeds
    → a.second_write ≡ succeeds
    → Advanced
        (next_of now v.todo_progress loop)
        (length w.waiting + 1)
        (advance a now session ident v w)
unfolding increment_iteration read_loop_state write_loop_state
advance-Advanced a now session ident v loop w file first second =
    let r = track_progress now session v.todo_incomplete none w.trackers in
    let stagnant = is_stagnant session default_stagnation_threshold r.0 in
    let left = record w { trackers = r.0 } in
    let went : increment_iteration a.first_write now w.file
        ≡ (stored (incremented now loop), some (incremented now loop)) =
      rw (first, file) refl in
    let h : Waiting = record {
      ident = ident;
      after = record {
        session = session;
        loop = next_of now v.todo_progress loop;
        stagnant = stagnant;
      };
    } in
    subst
      (λ r.
        Advanced (next_of now v.todo_progress loop) (length w.waiting + 1)
          (noted a session ident stagnant v.todo_progress r left))
      (sym went)
      (record {
        is_stored =
            ap (λ (x : Write). (write_loop_state x (next_of now v.todo_progress loop)).0) second;
        waits = omega (arith, length-append w.waiting (h ∷ []));
      })

-- Let the state file hold an active loop of an idle session, and let nothing hold it back: the last check is
-- not too recent, it is the main session or none is known, it does not recover and has no background
-- tasks, its circuit does not trip, the verification does not pass, and the file can be written. Then
-- the iteration is raised by one, whatever the maximum of iterations is, and one more call waits for
-- its toast to start a countdown.
pub idle-counts :
    (to_lower : Text → Text) (a : Around) (now : ℕ) (session : String) (loop : MissionLoopState)
    (w : World)
    → w.file ≡ stored loop
    → loop.active ≡ true
    → str_eq loop.session_id session ≡ true
    → too_soon now (get_state now session w.store).0.last_check_time ≡ false
    → is_other session a.main_session ≡ false
    → a.recovering ≡ false
    → a.background ≡ false
    → (should_trip_circuit now session w.circuits).1 ≡ false
    → Failing to_lower a
    → let progress = (verify_mission_completion to_lower a.files w.indices).1.todo_progress in
      ((idle to_lower a now session w).file ≡ stored (next_of now progress loop))
      × (length (idle to_lower a now session w).waiting ≡ length w.waiting + 1)
unfolding idle verify read_loop_state
idle-counts to_lower a now session loop w file active own recent main well free calm f =
    let v = verify_mission_completion to_lower a.files w.indices in
    let P : World → Type 0 = Advanced (next_of now v.1.todo_progress loop) (length w.waiting + 1) in
    let r = get_state now session w.store in
    let c = record w {
      store =
          cancel_countdown session (put session (record r.0 { last_check_time = some now }) r.1);
    } in
    let on : not loop.active ≡ false = ap not active in
    let mine : not (str_eq loop.session_id session) ≡ false = ap not own in
    let read : read_loop_state w.file ≡ some loop = ap read_loop_state file in
    let tripping = record c {
      indices = v.0;
      circuits = (should_trip_circuit now session w.circuits).0;
    } in
    let end : P (advance a now session r.0.ident v.1 tripping) =
      advance-Advanced a now session r.0.ident v.1 loop tripping file f.first f.second in
    let verified : P (idle_loop to_lower a now session r.0.ident (some loop) c) =
      if_no P (not loop.active) _ on (
        if_no P (not (str_eq loop.session_id session)) _ mine (
          if_no P v.1.passed _ (f.fails w.indices)
            (if_no P (should_trip_circuit now session w.circuits).1 _ calm end))) in
    let all : P (idle to_lower a now session w) =
      if_no P (too_soon now r.0.last_check_time) _ recent (
        if_no P (is_other session a.main_session) _ main (
          if_no P a.recovering _ well (
            if_no P a.background _ free (
              subst (λ o. P (idle_loop to_lower a now session r.0.ident o c)) (sym read)
                verified)))) in
    (all.is_stored, all.waits)
