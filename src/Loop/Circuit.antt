-- ===== src/Loop/Circuit.antt =====
-- src/core/loop/circuit-breaker.ts. The clock is the argument `now`, in milliseconds; it does not run
-- backwards, so a difference of times is not negative.
use open_supervisor.Pools.Strings.{is_truthy}
use open_supervisor.Prelude.Map
use open_supervisor.Prelude.Map.{Map}
use open_supervisor.Prelude.{
  str_eq, ◌-◌, all, not, ◌∷◌, ltb, length, true, filter, drop, false, some, if◌then◌else◌, ◌++◌,
  none, Bool, ℕ, [], List, Option, String,
}

pub record CircuitBreakerState : Type 0 where
  pub last_accessed_at : ℕ
  pub last_tripped_at : ℕ
  pub is_open : Bool
  pub tool_call_history : List String

abbrev pub CircuitStates : Type 0
CircuitStates = Map CircuitBreakerState

abbrev pub repetition_threshold : ℕ
repetition_threshold = 3

abbrev pub history_size : ℕ
history_size = 10

abbrev pub circuit_ttl_ms : ℕ
circuit_ttl_ms = 600000

abbrev pub circuit_reset_timeout_ms : ℕ
circuit_reset_timeout_ms = 30000

-- The round of the prune timer.
unfoldable pub prune : ℕ → CircuitStates → CircuitStates
prune now m = filter (λ e. not (ltb circuit_ttl_ms (now - e.1.last_accessed_at))) m

abbrev pub fresh : ℕ → CircuitBreakerState
fresh now = record {
  last_accessed_at = now;
  last_tripped_at = 0;
  is_open = false;
  tool_call_history = [];
}

-- `getState`: the state of the session, made if there is none.
abbrev pub accessed : ℕ → Option CircuitBreakerState → CircuitBreakerState
accessed now none = fresh now
accessed now (some state) = record state { last_accessed_at = now }

-- `isCircuitOpen` on the state of the session.
abbrev pub check_open : ℕ → CircuitBreakerState → CircuitBreakerState × Bool
check_open now s =
    let state = record s { last_accessed_at = now } in
    if s.is_open
    then if ltb circuit_reset_timeout_ms (now - s.last_tripped_at)
      then (record state { is_open = false; tool_call_history = [] }, false)
      else (state, true)
    else (state, false)

unfoldable pub is_circuit_open : ℕ → String → CircuitStates → CircuitStates × Bool
is_circuit_open now session m = elim (Map.get session m) [
  | none ↦ (m, false)
  | some s ↦ let (state, answer) = check_open now s in (Map.set session state m, answer)
]

-- `slice(-n)`.
abbrev pub take_last {ℓ} : {A : Type ℓ} → ℕ → List A → List A
take_last n xs = drop (length xs - n) xs

abbrev pub repeated : List String → Option String
repeated [] = none
repeated (first ∷ rest) =
    if all (λ tool. str_eq tool first) (first ∷ rest) then some first else none

abbrev pub repetitive : CircuitBreakerState → Option String
repetitive s =
    if ltb (length s.tool_call_history) repetition_threshold
    then none
    else repeated (take_last repetition_threshold s.tool_call_history)

unfoldable pub detect_repetitive_tool_use : String → CircuitStates → Option String
detect_repetitive_tool_use session m = elim (Map.get session m) [
  | none ↦ none
  | some s ↦ repetitive s
]

-- Whether a repetitive tool was found: its name is truthy.
abbrev pub found : Option String → Bool
found none = false
found (some tool) = is_truthy tool

-- `shouldTripCircuit` on the state of the session.
abbrev pub check_trip : ℕ → CircuitBreakerState → CircuitBreakerState × Bool
check_trip now s =
    if s.is_open
    then (s, false)
    else if found (repetitive s)
    then (record s { is_open = true; last_tripped_at = now }, true)
    else (s, false)

unfoldable pub should_trip_circuit : ℕ → String → CircuitStates → CircuitStates × Bool
should_trip_circuit now session m = elim (Map.get session m) [
  | none ↦ (m, false)
  | some s ↦ let (state, answer) = check_trip now s in (Map.set session state m, answer)
]

-- The history after the call: the oldest one goes once there are more than ten.
abbrev pub pushed : String → List String → List String
pushed tool history =
    let longer : List String = history ++ (tool ∷ []) in
    if ltb history_size (length longer) then drop 1 longer else longer

unfoldable pub record_tool_call : ℕ → String → String → CircuitStates → CircuitStates
record_tool_call now session tool m =
    let s = accessed now (Map.get session m) in
    Map.set session (record s { tool_call_history = pushed tool s.tool_call_history }) m

unfoldable pub clear_circuit_state : String → CircuitStates → CircuitStates
clear_circuit_state session m = Map.delete session m

unfoldable pub get_circuit_state : String → CircuitStates → Option CircuitBreakerState
get_circuit_state session m = Map.get session m

unfoldable pub shutdown_circuit_breaker : CircuitStates → CircuitStates
shutdown_circuit_breaker m = []
