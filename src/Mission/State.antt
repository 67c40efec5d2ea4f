-- ===== src/Mission/State.antt =====
-- src/core/loop/session-state-store.ts and what the handlers of src/core/loop/mission-loop-handler.ts share.
-- The clock is the argument `now`, in milliseconds. A handler that waits keeps its state object, here by a
-- number, `ident`, which says whether the store still has it.
use open_supervisor.Mission.LoopState.{MissionLoopState}
use open_supervisor.Prelude.{
  ◌==◌, ◌-◌, filter, if◌then◌else◌, false, some, ◌∷◌, ltb, ◌+◌, not, String, map, List, none,
  Option, Bool, [], ℕ,
}
use open_supervisor.Prelude.Map.{Map}
use open_supervisor.Prelude.Map

pub record SessionState : Type 0 where
  pub ident : ℕ
  pub stagnation_count : ℕ
  pub countdown_timer : Option ℕ
  pub countdown_started_at : Option ℕ
  pub last_check_time : Option ℕ
  pub is_recovering : Bool
  pub is_aborting : Bool
  pub in_flight : Bool
  pub last_accessed_at : ℕ

-- What a countdown prompts for, once it is over: the loop as it was at its start, and whether its
-- session was stagnant.
pub record Continuation : Type 0 where
  pub session : String
  pub loop : MissionLoopState
  pub stagnant : Bool

-- The sessions, the numbers of the state objects and of the timers made, and the timers that are neither
-- cleared nor over.
pub record Store : Type 0 where
  pub states : Map SessionState
  pub made : ℕ
  pub started : ℕ
  pub timers : List (ℕ × Continuation)

abbrev pub session_state_ttl_ms : ℕ
session_state_ttl_ms = 600000

abbrev pub new : Store
new = record { states = []; made = 0; started = 0; timers = [] }

abbrev pub created : ℕ → ℕ → SessionState
created ident now = record {
  ident = ident;
  stagnation_count = 0;
  countdown_timer = none;
  countdown_started_at = none;
  last_check_time = none;
  is_recovering = false;
  is_aborting = false;
  in_flight = false;
  last_accessed_at = now;
}

-- `getTrackedSession` on what the map holds.
abbrev pub tracked : ℕ → ℕ → Option SessionState → SessionState
tracked made now none = created made now
tracked made now (some s) = record s { last_accessed_at = now }

abbrev pub made_for : ℕ → Option SessionState → ℕ
made_for made none = made + 1
made_for made (some s) = made

-- `getState`: the state, and the store with it.
unfoldable pub get_state : ℕ → String → Store → SessionState × Store
get_state now session w =
    let found = Map.get session w.states in
    let s = tracked now w.made found in
    (s, record w { states = Map.set session s w.states; made = made_for w.made found })

abbrev pub clear_timer : Option ℕ → List (ℕ × Continuation) → List (ℕ × Continuation)
clear_timer none timers = timers
clear_timer (some id) timers = filter (λ (t : ℕ × Continuation). not (t.0 == id)) timers

-- `cancelCountdownInternal`
abbrev pub cancelled : SessionState → SessionState
cancelled s = record s { countdown_timer = none; countdown_started_at = none; in_flight = false }

abbrev pub cancel_in : String → Option SessionState → Store → Store
cancel_in session none w = w
cancel_in session (some s) w = record w {
  states = Map.set session (cancelled s) w.states;
  timers = clear_timer s.countdown_timer w.timers;
}

unfoldable pub cancel_countdown : String → Store → Store
cancel_countdown session w = cancel_in session (Map.get session w.states) w

unfoldable pub cleanup : String → Store → Store
cleanup session w =
    let w1 = cancel_countdown session w in record w1 { states = Map.delete session w1.states }

-- A field of the state object of a session that a handler holds.
abbrev pub put : String → SessionState → Store → Store
put session s w = record w { states = Map.set session s w.states }

abbrev pub is_stale : ℕ → SessionState → Bool
is_stale now s = ltb session_state_ttl_ms (now - s.last_accessed_at)

abbrev pub clear_stale : ℕ → Map SessionState → List (ℕ × Continuation) → List (ℕ × Continuation)
clear_stale now [] timers = timers
clear_stale now ((session, s) ∷ m) timers =
    clear_stale now m (if is_stale now s then clear_timer s.countdown_timer timers else timers)

-- The round of the prune timer.
unfoldable pub prune : ℕ → Store → Store
prune now w = record w {
  states = Map.keep (λ s. not (is_stale now s)) w.states;
  timers = clear_stale now w.states w.timers;
}

abbrev pub clear_each : Map SessionState → List (ℕ × Continuation) → List (ℕ × Continuation)
clear_each [] timers = timers
clear_each ((session, s) ∷ m) timers = clear_each m (clear_timer s.countdown_timer timers)

unfoldable pub cancel_all_countdowns : Store → Store
cancel_all_countdowns w = record w {
  states = map (λ (e : String × SessionState). (e.0, cancelled e.1)) w.states;
  timers = clear_each w.states w.timers;
}

unfoldable pub shutdown : Store → Store
shutdown w = record (cancel_all_countdowns w) { states = [] }
