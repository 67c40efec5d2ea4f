-- ===== src/Concurrency/Examples.antt =====
-- The theorems about src/core/agents/concurrency.ts at concrete inputs, and tests.
use open_supervisor.Concurrency.Runs.{reports, acquires, run}
use open_supervisor.Concurrency.Token.{
  token_releases_once, is_released, new_token, release_called, timer_fired, on_events,
}
use open_supervisor.Concurrency.Control.{
  queued, note_failure, take_slot, note_success, release, acquire,
}
use open_supervisor.Concurrency.Breaker.{half_open_outcomes, run-new-AllSound, AllSound}
use open_supervisor.Concurrency.Slots.{leaves, here, next, Steps-Bounded, left, Bounded}
use open_supervisor.Concurrency.Fairness.{Steps-Fair, Fair}
use open_supervisor.Concurrency.Queue.{run-new-Ordered, Ordered}
use open_supervisor.Prelude.{[], inr, refl, none, false, true, ◌≡◌, ◌∷◌, arith, some, ℕ}
use open_supervisor.Concurrency.State.{
  half_open, is_under_resource_pressure, put_circuit, normal, closed, get_circuit, QueuedTask,
  finite, low, is_circuit_open, TaskPriority, open_circuit, high, configured_limit, new, probe,
  provider, ConcurrencyConfig, get_concurrency_limit, CircuitBreaker, Controller,
}
use open_supervisor.Prelude.Map

abbrev plain : ConcurrencyConfig
plain = record {
  default_concurrency = some 1;
  agent_concurrency = none;
  provider_concurrency = none;
  model_concurrency = none;
}

abbrev task_of : ℕ → TaskPriority → QueuedTask
task_of n p = record { ticket = n; priority = p; enqueued_at = 1000 }

-- One slot is held and a normal call waits.
abbrev crowded : Controller
crowded = record (new plain) {
  counts = ("m", 1) ∷ [];
  queues = ("m", task_of 2 normal ∷ []) ∷ [];
  success_streak = ("m", 2) ∷ [];
}

provider_test : provider "openai/gpt" ≡ "openai"
provider_test = refl

crowded_limit : get_concurrency_limit crowded "m" ≡ finite 1
unfolding get_concurrency_limit configured_limit Map.get new
crowded_limit = refl

crowded-Ordered : Ordered crowded
unfolding Map.get_or Map.get
crowded-Ordered key = ground arith

crowded-Fair : Fair "m" 1 crowded 1
unfolding Map.get_or Map.get
crowded-Fair = record {
  exact = refl;
  limited = crowded_limit;
  slots = omega arith;
  busy = inr refl;
}

crowded-Bounded : Bounded "m" 50 crowded 1
unfolding Map.get_or Map.get
crowded-Bounded = record {
  exact = refl;
  slots = omega arith;
  limit = 1;
  limited = crowded_limit;
  limit_bound = omega arith;
}

broken : CircuitBreaker
broken = record {
  state = open_circuit;
  failure_count = 5;
  last_failure_time = 1000;
  success_count = 0;
}

half_open_outcomes_example :
    let tested = (probe 40000 broken).0 in
    ((probe 40000 broken).1 ≡ false)
    × (tested.state ≡ half_open)
    × ((note_success tested).state ≡ half_open)
    × ((note_success (note_success tested)).state ≡ closed)
    × ((note_success (note_success tested)).failure_count ≡ 0)
    × ((note_failure 7 tested).state ≡ open_circuit)
    × ((note_failure 7 (note_success tested)).state ≡ open_circuit)
    × ((note_failure 7 (note_success tested)).last_failure_time ≡ 7)
unfolding broken
half_open_outcomes_example = half_open_outcomes broken 40000 7 refl (omega arith)

run-new-AllSound_example : AllSound (run (new plain) (reports "m" false 5 ∷ []))
run-new-AllSound_example = run-new-AllSound plain (reports "m" false 5 ∷ [])

run-new-Ordered_example : Ordered (run (new plain) (acquires "m" (task_of 3 low) 1 2 ∷ []))
run-new-Ordered_example = run-new-Ordered plain (acquires "m" (task_of 3 low) 1 2 ∷ [])

crowded_waits : (acquire crowded "m" (task_of 3 high) 1 2).1 ≡ queued
unfolding acquire is_circuit_open probe take_slot get_circuit put_circuit is_under_resource_pressure
    get_concurrency_limit configured_limit Map.get_or Map.get new
crowded_waits = refl

abbrev released : Controller
released = (release crowded "m").0

Steps-Bounded_example : Bounded "m" 50 released (left (release crowded "m").1 0)
Steps-Bounded_example =
    Steps-Bounded "m" 50 {adaptive = true} (omega arith) crowded-Bounded
      (next here (leaves crowded 0))

Steps-Fair_example : Fair "m" 1 released (left (release crowded "m").1 0)
Steps-Fair_example = Steps-Fair "m" 1 crowded-Fair (next here (leaves crowded 0))

token_releases_once_example :
    let after = on_events (timer_fired ∷ release_called ∷ []) (new_token "m") crowded in
    (after.1 ≡ (release crowded "m").0) × (is_released after.0 ≡ true) × (after.0.timer ≡ false)
token_releases_once_example = token_releases_once timer_fired (release_called ∷ []) "m" crowded
