-- ===== src/Loop/CircuitLaws.antt =====
-- src/core/loop/circuit-breaker.ts: a tool used three times in a row opens the circuit, which stays open
-- for thirty seconds.
use open_supervisor.Pools.Strings.{is_truthy}
use open_supervisor.Prelude.Map
use open_supervisor.Loop.Circuit.{
  repetitive, found, repetition_threshold, circuit_reset_timeout_ms, check_trip, check_open,
  should_trip_circuit, is_circuit_open, accessed, CircuitBreakerState, pushed, history_size,
  take_last, CircuitStates, record_tool_call,
}
use open_supervisor.Prelude.{
  ap, ◌∙◌, eq_refl, ◌↔◌, true, false, none, ltb, refl, some, length-append, ◌-◌, arith, [], Option,
  ◌≡◌, ◌∷◌, length, ◌≤◌, List, ℕ, String,
}

pushed_bounded :
    (tool : String) (history : List String)
    → length history ≤ history_size
    → length (pushed tool history) ≤ history_size
pushed_bounded tool [] h = omega arith
pushed_bounded tool (x ∷ history) h = ground (arith, length-append history (tool ∷ []))

-- Recording calls keeps at most ten of them for each session.
pub record_tool_call_bounded :
    (now : ℕ) (session tool : String) (m : CircuitStates)
    → Map.Holds (λ s. length s.tool_call_history ≤ history_size) m
    → Map.Holds
        (λ s. length s.tool_call_history ≤ history_size)
        (record_tool_call now session tool m)
unfolding record_tool_call
record_tool_call_bounded now session tool m h =
    Map.Holds-set _ session _ m (pushed_bounded tool _ (before (Map.get session m) (h session))) h
  where
    before :
        (found : Option CircuitBreakerState)
        → ((s : CircuitBreakerState) → found ≡ some s → length s.tool_call_history ≤ history_size)
        → length (accessed now found).tool_call_history ≤ history_size
    before none k = omega arith
    before (some s) k = k s refl

trip_at :
    (now : ℕ) (session : String) (m : CircuitStates) (s : CircuitBreakerState)
    → Map.get session m ≡ some s
    → ((should_trip_circuit now session m).1 ≡ (check_trip now s).1)
      × (Map.get session (should_trip_circuit now session m).0 ≡ some (check_trip now s).0)
unfolding should_trip_circuit
trip_at now session m s e = rw (e, should_trip_circuit) (refl, Map.get-set_self session _ m)

open_at :
    (now : ℕ) (session : String) (m : CircuitStates) (s : CircuitBreakerState)
    → Map.get session m ≡ some s
    → (is_circuit_open now session m).1 ≡ (check_open now s).1
unfolding is_circuit_open
open_at now session m s e = rw (e, is_circuit_open) refl

-- When the last three of at least three calls of a closed circuit are of one tool, `shouldTripCircuit`
-- opens the circuit, and from then on it counts as open exactly for thirty seconds.
pub should_trip_circuit-opens :
    (now later : ℕ) (session tool : String) (m : CircuitStates) (s : CircuitBreakerState)
    → Map.get session m ≡ some s
    → s.is_open ≡ false
    → 3 ≤ length s.tool_call_history
    → take_last 3 s.tool_call_history ≡ tool ∷ tool ∷ tool ∷ []
    → is_truthy tool ≡ true
    → ((should_trip_circuit now session m).1 ≡ true)
      × (((is_circuit_open later session (should_trip_circuit now session m).0).1 ≡ true)
          ↔ (later - now ≤ circuit_reset_timeout_ms))
should_trip_circuit-opens now later session tool m s e closed long last truthy =
    let trip : check_trip now s ≡ (record s { is_open = true; last_tripped_at = now }, true) =
      rw (closed, tripped) refl in
    let (answer, state) = trip_at now session m s e in
    (
      answer ∙ ap (λ r. r.1) trip,
      rw
          (open_at later session _ (record s { is_open = true; last_tripped_at = now })
            (state ∙ ap (λ r. some r.0) trip))
          (ground arith),
    )
  where
    short-no : ltb (length s.tool_call_history) repetition_threshold ≡ false
    short-no = ground arith

    tripped : found (repetitive s) ≡ true
    tripped = rw (short-no, last, eq_refl tool) truthy
