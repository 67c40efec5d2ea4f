-- ===== src/Mission/LoopState.antt =====
-- src/core/loop/mission-loop.ts, with what stands at the path of the state. The clock is the argument `now`, in
-- milliseconds; what the file system does is an argument of the operations that write.
use open_supervisor.Prelude.{
  str_eq, ◌&&◌, if◌then◌else◌, none, false, some, true, ◌+◌, Option, Bool, String, ℕ,
}

pub record MissionLoopState : Type 0 where
  pub active : Bool
  pub iteration : ℕ
  pub max_iterations : ℕ
  pub prompt : String
  pub session_id : String
  pub started_at : ℕ
  pub last_activity : Option ℕ
  -- How many todos are completed, of how many.
  pub last_progress : Option (ℕ × ℕ)
  pub stagnation_count : Option ℕ

-- What stands at the path.
pub data LoopFile : Type 0 where
  missing : LoopFile
  malformed : LoopFile
  stored : MissionLoopState → LoopFile

-- What the file system does on a write: one that fails may leave anything.
pub data Write : Type 0 where
  succeeds : Write
  fails_with : LoopFile → Write

abbrev pub default_max_iterations : ℕ
default_max_iterations = 1000

unfoldable pub read_loop_state : LoopFile → Option MissionLoopState
read_loop_state missing = none
read_loop_state malformed = none
read_loop_state (stored state) = some state

unfoldable pub write_loop_state : Write → MissionLoopState → LoopFile × Bool
write_loop_state succeeds state = (stored state, true)
write_loop_state (fails_with left) state = (left, false)

-- `removes`: whether the file can be deleted.
unfoldable pub clear_loop_state : Bool → LoopFile → LoopFile × Bool
clear_loop_state removes missing = (missing, false)
clear_loop_state removes malformed = if removes then (missing, true) else (malformed, false)
clear_loop_state removes (stored s) = if removes then (missing, true) else (stored s, false)

abbrev pub incremented : ℕ → MissionLoopState → MissionLoopState
incremented now s = record s { iteration = s.iteration + 1; last_activity = some now }

abbrev pub if_written : MissionLoopState → LoopFile × Bool → LoopFile × Option MissionLoopState
if_written s (file, true) = (file, some s)
if_written s (file, false) = (file, none)

abbrev pub increment_read :
    Write → ℕ → Option MissionLoopState → LoopFile → LoopFile × Option MissionLoopState
increment_read write now none file = (file, none)
increment_read write now (some s) file =
    if_written (incremented now s) (write_loop_state write (incremented now s))

unfoldable pub increment_iteration : Write → ℕ → LoopFile → LoopFile × Option MissionLoopState
increment_iteration write now file = increment_read write now (read_loop_state file) file

unfoldable pub start_mission_loop : Write → ℕ → String → String → Option ℕ → LoopFile × Bool
start_mission_loop write now session prompt max_iterations = write_loop_state write (record {
  active = true;
  iteration = 1;
  max_iterations = elim max_iterations [ none ↦ default_max_iterations | some n ↦ n ];
  prompt = prompt;
  session_id = session;
  started_at = now;
  last_activity = none;
  last_progress = none;
  stagnation_count = none;
})

abbrev pub cancel_read : Bool → String → Option MissionLoopState → LoopFile → LoopFile × Bool
cancel_read removes session none file = (file, false)
cancel_read removes session (some s) file =
    if str_eq s.session_id session then clear_loop_state removes file else (file, false)

unfoldable pub cancel_mission_loop : Bool → String → LoopFile → LoopFile × Bool
cancel_mission_loop removes session file = cancel_read removes session (read_loop_state file) file

abbrev pub is_active_for : String → Option MissionLoopState → Bool
is_active_for session none = false
is_active_for session (some s) = s.active && str_eq s.session_id session

unfoldable pub is_loop_active : String → LoopFile → Bool
is_loop_active session file = is_active_for session (read_loop_state file)
