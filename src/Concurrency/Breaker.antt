-- ===== src/Concurrency/Breaker.antt =====
-- src/core/agents/concurrency.ts: the circuit breaker of `ConcurrencyController`, over all its calls.
use open_supervisor.Prelude.{
  ◌+◌, length, leb, ℕ, ◌-◌, ◌≤◌, ◌<◌, String, Bool, true, false, ◌≡◌, refl, ◌↔◌, inl, inr, List, [],
  ◌∷◌, arith, str_eq, Bool-cases,
}
use open_supervisor.Prelude.Map
use open_supervisor.Prelude.Map.{get-set, get_or-set, get_or-set_self}
use open_supervisor.Concurrency.State.{
  closed, open_circuit, half_open, QueuedTask, CircuitBreaker, Controller, circuit_threshold,
  circuit_timeout, half_open_success, fresh_circuit, ConcurrencyConfig, new, set_limit, get_circuit,
  put_circuit, probe, is_circuit_open,
}
use open_supervisor.Concurrency.Cases.{probed, acquire_cases}
use open_supervisor.Concurrency.Runs.{
  Call, acquires, releases, times_out, reports, resets, limits_to, step, run,
}
use open_supervisor.Concurrency.Control.{
  refused, circuit_open, acquire, note_success, note_failure, report_result, scale_up, scale_down,
  take_slot, release, hand_over, remove_from_queue, reset_circuit,
}

-- A closed circuit is below the failure threshold, and a half-open one below the success count.
pub record IsSound (b : CircuitBreaker) : Type 0 where
  pub below_threshold : b.state ≡ closed → b.failure_count < circuit_threshold
  pub still_testing : b.state ≡ half_open → b.success_count < half_open_success

pub note_success-IsSound : (b : CircuitBreaker) → IsSound b → IsSound (note_success b)
unfolding note_success
note_success-IsSound b h = ground arith

pub note_failure-IsSound : (now : ℕ) (b : CircuitBreaker) → IsSound b → IsSound (note_failure now b)
unfolding note_failure
note_failure-IsSound now b h = ground arith

pub probe-IsSound : (now : ℕ) (b : CircuitBreaker) → IsSound b → IsSound (probe now b).0
unfolding probe
probe-IsSound now b h = ground arith

-- The circuit of every key.
abbrev pub AllSound : Controller → Type 0
AllSound c = (key : String) → IsSound (get_circuit c key)

pub fresh-IsSound : IsSound fresh_circuit
fresh-IsSound = ground arith

put_circuit-AllSound :
    (c : Controller) (key : String) (b : CircuitBreaker)
    → IsSound b
    → AllSound c
    → AllSound (put_circuit c key b)
unfolding get_circuit put_circuit
put_circuit-AllSound c key b hb h j = elim (Bool-cases (str_eq key j)) [
  | inl e ↦ rw (get_or-set, e) hb
  | inr e ↦ rw (get_or-set, e) (h j)
]

-- What changes no circuit keeps them sound.
circuits-AllSound : (c d : Controller) → d.circuits ≡ c.circuits → AllSound c → AllSound d
unfolding get_circuit
circuits-AllSound c d e h key = rw e (h key)

circuits-take_slot :
    (c : Controller) (key : String) (t : QueuedTask) → (take_slot c key t).0.circuits ≡ c.circuits
unfolding take_slot
circuits-take_slot c key t = ground arith

circuits-scale_up : (c : Controller) (key : String) → (scale_up c key).circuits ≡ c.circuits
unfolding scale_up set_limit
circuits-scale_up c key = ground arith

circuits-scale_down : (c : Controller) (key : String) → (scale_down c key).circuits ≡ c.circuits
unfolding scale_down set_limit
circuits-scale_down c key = ground arith

circuits-release : (c : Controller) (key : String) → (release c key).0.circuits ≡ c.circuits
unfolding release hand_over
circuits-release c key = ground arith

circuits-remove_from_queue :
    (c : Controller) (key : String) (ticket : ℕ)
    → (remove_from_queue c key ticket).circuits ≡ c.circuits
unfolding remove_from_queue
circuits-remove_from_queue c key ticket = ground arith

acquire-AllSound :
    (c : Controller) (key : String) (t : QueuedTask) (used total : ℕ)
    → AllSound c
    → AllSound (acquire c key t used total).0
acquire-AllSound c key t used total h =
    let sound = put_circuit-AllSound c key _ (probe-IsSound t.enqueued_at _ (h key)) h in
    acquire_cases (λ r. AllSound r.0) c key t used total (λ _. sound) (λ _. sound)
      (λ _. circuits-AllSound (probed c key t) _ (circuits-take_slot (probed c key t) key t) sound)

report_result-AllSound :
    (c : Controller) (key : String) (success : Bool) (now : ℕ)
    → AllSound c
    → AllSound (report_result c key success now)
unfolding report_result
report_result-AllSound c key true now h =
    circuits-AllSound _ _ (circuits-scale_up _ key)
      (put_circuit-AllSound c key _ (note_success-IsSound _ (h key)) h)
report_result-AllSound c key false now h =
    circuits-AllSound _ _ (circuits-scale_down _ key)
      (put_circuit-AllSound c key _ (note_failure-IsSound now _ (h key)) h)

step-AllSound : (c : Controller) (call : Call) → AllSound c → AllSound (step c call)
unfolding step
step-AllSound c (acquires key t used total) h = acquire-AllSound c key t used total h
step-AllSound c (releases key) h = circuits-AllSound c _ (circuits-release c key) h
step-AllSound c (times_out key n) h = circuits-AllSound c _ (circuits-remove_from_queue c key n) h
step-AllSound c (reports key success now) h = report_result-AllSound c key success now h
step-AllSound c (resets key) h =
    unfold reset_circuit in put_circuit-AllSound c key _ (ground arith) h
step-AllSound c (limits_to key limit) h = unfold set_limit in circuits-AllSound c _ refl h

run-AllSound : (c : Controller) (calls : List Call) → AllSound c → AllSound (run c calls)
unfolding run
run-AllSound c [] h = h
run-AllSound c (call ∷ calls) h = run-AllSound (step c call) calls (step-AllSound c call h)

-- After any calls on a new controller, in any order, every key's circuit is below five counted
-- failures while closed, and below two counted successes while half-open.
pub run-new-AllSound :
    (config : ConcurrencyConfig) (calls : List Call) → AllSound (run (new config) calls)
run-new-AllSound config calls =
    run-AllSound (new config) calls
      (unfold new get_circuit Map.get_or Map.get in λ key. fresh-IsSound)

-- Failures reported at the given times, with no other report between them.
pub failures : List ℕ → CircuitBreaker → CircuitBreaker
failures [] b = b
failures (now ∷ times) b = failures times (note_failure now b)

open-failures :
    (times : List ℕ) (b : CircuitBreaker)
    → b.state ≡ open_circuit
    → (failures times b).state ≡ open_circuit
unfolding failures note_failure
open-failures [] b h = h
open-failures (now ∷ times) b h = open-failures times (note_failure now b) (ground arith)

-- A run of failures opens a closed circuit as soon as the counted failures reach five, whatever
-- their times are, and it stays open through more of them.
pub failures-open :
    (times : List ℕ) (b : CircuitBreaker)
    → b.state ≡ closed
    → b.failure_count < circuit_threshold
    → circuit_threshold ≤ b.failure_count + length times
    → (failures times b).state ≡ open_circuit
unfolding failures note_failure
failures-open [] b e lt h = absurd (omega arith)
failures-open (now ∷ times) b e lt h =
    elim (Bool-cases (leb circuit_threshold (b.failure_count + 1))) [
      | inl full ↦ open-failures times (note_failure now b) (ground arith)
      | inr more ↦
          failures-open times (note_failure now b) (ground arith) (ground arith) (ground arith)
    ]

-- Once more than 30 s have passed since the last failure of an open circuit, a call passes as a test and
-- leaves the circuit half open. However many successes it had counted before, one success leaves it half
-- open, the second one closes it with no failure counted, and a failure opens it again, before the first
-- success as after it, with the time of the failure noted.
pub half_open_outcomes :
    (b : CircuitBreaker) (now later : ℕ)
    → b.state ≡ open_circuit
    → 30000 < now - b.last_failure_time
    → let tested = (probe now b).0 in
      ((probe now b).1 ≡ false)
      × (tested.state ≡ half_open)
      × ((note_success tested).state ≡ half_open)
      × ((note_success (note_success tested)).state ≡ closed)
      × ((note_success (note_success tested)).failure_count ≡ 0)
      × ((note_failure later tested).state ≡ open_circuit)
      × ((note_failure later (note_success tested)).state ≡ open_circuit)
      × ((note_failure later (note_success tested)).last_failure_time ≡ later)
unfolding probe note_success note_failure
half_open_outcomes b now later e h = ground arith

-- `acquire` is refused by the breaker exactly when the circuit is open and at most 30 s have passed
-- since the last failure; the refusal changes no count and no queue.
pub acquire-circuit_open :
    (c : Controller) (key : String) (t : QueuedTask) (used total : ℕ)
    → ((acquire c key t used total).1 ≡ refused circuit_open) ↔ (
        ((get_circuit c key).state ≡ open_circuit)
        × (t.enqueued_at - (get_circuit c key).last_failure_time ≤ circuit_timeout))
unfolding acquire is_circuit_open probe take_slot
acquire-circuit_open c key t used total = ground arith
