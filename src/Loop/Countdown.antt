-- ===== src/Loop/Countdown.antt =====
-- src/core/loop/todo-continuation.ts. The clock is the argument `now`, in milliseconds since 1970. What the
-- handlers ask of other parts is an argument: whether the session is another one than the main one, is
-- recovering, has background tasks (or no prompt can be made), and whether work is left, which is false as
-- well when the todos cannot be fetched. A handler that waits
-- keeps its state object, here by a number, `ident`, which says whether the map still has it.
use open_supervisor.Prelude.Map.{Map}
use open_supervisor.Prelude.{
  not, ◌==◌, filter, false, ◌+◌, some, [], List, Bool, String, Option, none, ℕ,
}
use open_supervisor.Prelude.Map

pub record ContinuationState : Type 0 where
  pub ident : ℕ
  pub countdown_timer : Option ℕ
  pub countdown_started_at : Option ℕ
  pub is_aborting : Bool
  pub last_idle_time : Option ℕ
  pub abort_detected_at : Option ℕ
  pub last_accessed_at : ℕ

-- A call of handleSessionIdle that waits for the todos or the toast.
pub record Waiting : Type 0 where
  pub session : String
  pub ident : ℕ
  pub since : ℕ

pub record World : Type 0 where
  pub states : Map ContinuationState
  -- How many state objects and timers were made.
  pub made : ℕ
  pub started : ℕ
  -- The timers that are neither cleared nor over, with their sessions.
  pub timers : List (ℕ × String)
  pub idles : List Waiting
  -- The sessions of the callbacks that wait for the fresh todos.
  pub fired : List String
  -- The sessions that were prompted, the latest one first.
  pub prompts : List String

abbrev pub continuation_ttl_ms : ℕ
continuation_ttl_ms = 600000

abbrev pub min_time_between_continuations_ms : ℕ
min_time_between_continuations_ms = 3000

abbrev pub countdown_grace_period_ms : ℕ
countdown_grace_period_ms = 500

abbrev pub abort_window_ms : ℕ
abort_window_ms = 3000

pub record Guards : Type 0 where
  pub other_session : Bool
  pub recovering : Bool
  pub background : Bool

abbrev pub new : World
new = record {
  states = [];
  made = 0;
  started = 0;
  timers = [];
  idles = [];
  fired = [];
  prompts = [];
}

abbrev pub created : ℕ → ℕ → ContinuationState
created ident now = record {
  ident = ident;
  countdown_timer = none;
  countdown_started_at = none;
  is_aborting = false;
  last_idle_time = none;
  abort_detected_at = none;
  last_accessed_at = now;
}

-- `getState`: the state, and the world with it.
abbrev pub got : ℕ → String → Option ContinuationState → World → ContinuationState × World
got now session none w = (
  created w.made now,
  record w { states = Map.set session (created w.made now) w.states; made = w.made + 1 },
)
got now session (some s) w =
    let touched = record s { last_accessed_at = now } in
    (touched, record w { states = Map.set session touched w.states })

abbrev pub get_state : ℕ → String → World → ContinuationState × World
get_state now session w = got now session (Map.get session w.states) w

abbrev pub clear_timer : Option ℕ → List (ℕ × String) → List (ℕ × String)
clear_timer none timers = timers
clear_timer (some id) timers = filter (λ (t : ℕ × String). not (t.0 == id)) timers

-- The fields of a state once its countdown is cancelled.
abbrev pub cancelled : ContinuationState → ContinuationState
cancelled s = elim s.countdown_timer [
  | none ↦ s
  | some id ↦ record s { countdown_timer = none; countdown_started_at = none }
]

abbrev pub cancel_in : String → Option ContinuationState → World → World
cancel_in session none w = w
cancel_in session (some s) w = record w {
  states = Map.set session (cancelled s) w.states;
  timers = clear_timer s.countdown_timer w.timers;
}

abbrev pub cancel_countdown : String → World → World
cancel_countdown session w = cancel_in session (Map.get session w.states) w

-- The state of a session put in place of the one in the map.
abbrev pub put : String → ContinuationState → World → World
put session s w = record w { states = Map.set session s w.states }
