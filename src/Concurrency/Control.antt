-- ===== src/Concurrency/Control.antt =====
-- src/core/agents/concurrency.ts: the methods of `ConcurrencyController` that change its state. The
-- text of a thrown error is the constructor of `Refusal`.
use open_supervisor.Prelude.{
  ℕ, ◌+◌, ◌-◌, String, Bool, true, false, ◌&&◌, Option, none, some, List, [], ◌∷◌, ltb, leb, ◌==◌,
  if◌then◌else◌, insert_by, length,
}
use open_supervisor.Prelude.Map
use open_supervisor.Concurrency.State.{
  rank_of, TaskPriority, low, CircuitState, closed, open_circuit, half_open, QueuedTask,
  CircuitBreaker, Limit, finite, infinity, Controller, circuit_threshold, half_open_success,
  max_concurrency, set_limit, get_concurrency_limit, get_circuit, put_circuit, is_circuit_open,
  is_under_resource_pressure,
}

pub data Refusal : Type 0 where
  circuit_open resource_pressure : Refusal

-- How the promise of `acquire` stands when the call returns: resolved, waiting, or rejected.
pub data Admission : Type 0 where
  granted queued : Admission
  refused : Refusal → Admission

abbrev pub is_low : TaskPriority → Bool
is_low low = true
is_low _ = false

abbrev pub queue_of : Controller → String → List QueuedTask
queue_of c key = Map.get_or key [] c.queues

abbrev pub count_of : Controller → String → ℕ
count_of c key = Map.get_or key 0 c.counts

-- The slot or the place in the queue, once the breaker and the memory let the call pass.
unfoldable pub take_slot : Controller → String → QueuedTask → Controller × Admission
take_slot c key task = elim (get_concurrency_limit c key) [
  | infinity ↦ (c, granted)
  | finite limit ↦
      if ltb (count_of c key) limit
      then (record c { counts = Map.set key (count_of c key + 1) c.counts }, granted)
      else (
        record c { queues = Map.set key (insert_by rank_of task (queue_of c key)) c.queues },
        queued,
      )
]

unfoldable pub acquire : Controller → String → QueuedTask → ℕ → ℕ → Controller × Admission
unfolding is_circuit_open is_under_resource_pressure
acquire c key task heap_used heap_total =
    let (c', blocked) = is_circuit_open c key task.enqueued_at in
    if blocked
    then (c', refused circuit_open)
    else if is_under_resource_pressure heap_used heap_total && is_low task.priority
    then (c', refused resource_pressure)
    else take_slot c' key task

-- The waiting call at the head of the queue gets the slot of the caller; the ticket in the result
-- is the call that is resumed. With nobody waiting the slot is given back.
unfoldable pub hand_over : Controller → String → List QueuedTask → Controller × Option ℕ
hand_over c key (next ∷ rest) = (record c { queues = Map.set key rest c.queues }, some next.ticket)
hand_over c key [] =
    if ltb 0 (count_of c key)
    then (record c { counts = Map.set key (count_of c key - 1) c.counts }, none)
    else (c, none)

unfoldable pub release : Controller → String → Controller × Option ℕ
unfolding hand_over
release c key = elim (get_concurrency_limit c key) [
  | infinity ↦ (c, none)
  | finite _ ↦ hand_over c key (queue_of c key)
]

-- The first task with the ticket is taken out.
abbrev pub without_ticket : ℕ → List QueuedTask → List QueuedTask
without_ticket ticket [] = []
without_ticket ticket (q ∷ qs) = if q.ticket == ticket then qs else q ∷ without_ticket ticket qs

-- `removeFromQueue`, which the 300 s timer of a queued call runs.
unfoldable pub remove_from_queue : Controller → String → ℕ → Controller
remove_from_queue c key ticket = elim (Map.get key c.queues) [
  | none ↦ c
  | some queue ↦ record c { queues = Map.set key (without_ticket ticket queue) c.queues }
]

-- The part of `handleSuccess` on the circuit object.
unfoldable pub note_success : CircuitBreaker → CircuitBreaker
note_success circuit = elim circuit.state [
  | half_open ↦
      if leb half_open_success (circuit.success_count + 1)
      then record circuit { state = closed; failure_count = 0; success_count = 0 }
      else record circuit { success_count = circuit.success_count + 1 }
  | _ ↦ record circuit { failure_count = 0 }
]

-- The part of `handleFailure` on the circuit object.
unfoldable pub note_failure : ℕ → CircuitBreaker → CircuitBreaker
note_failure now circuit =
    let failed = record circuit {
      failure_count = circuit.failure_count + 1;
      last_failure_time = now;
    } in
    elim circuit.state [
      | half_open ↦ record failed { state = open_circuit; success_count = 0 }
      | _ ↦
          if leb circuit_threshold (circuit.failure_count + 1)
          then record failed { state = open_circuit }
          else failed
    ]

-- `currentLimit < MAX_CONCURRENCY`, then one more.
abbrev pub raised : Limit → Option Limit
raised infinity = none
raised (finite n) = if ltb n max_concurrency then some (finite (n + 1)) else none

-- `currentLimit > 1`, then one less; `Infinity - 1` is `Infinity`.
abbrev pub lowered : Limit → Option Limit
lowered infinity = some infinity
lowered (finite n) = if ltb 1 n then some (finite (n - 1)) else none

-- A third success in a row raises the limit and starts a new streak.
unfoldable pub scale_up : Controller → String → Controller
scale_up c key =
    let streak = Map.get_or key 0 c.success_streak + 1 in
    let counted = record c {
      success_streak = Map.set key streak c.success_streak;
      failure_counts = Map.set key 0 c.failure_counts;
    } in
    if leb 3 streak
    then elim (raised (get_concurrency_limit c key)) [
      | none ↦ counted
      | some limit ↦ record (set_limit counted key limit) {
        success_streak = Map.set key 0 counted.success_streak;
      }
    ]
    else counted

-- A second failure in a row lowers it.
unfoldable pub scale_down : Controller → String → Controller
scale_down c key =
    let failures = Map.get_or key 0 c.failure_counts + 1 in
    let counted = record c {
      failure_counts = Map.set key failures c.failure_counts;
      success_streak = Map.set key 0 c.success_streak;
    } in
    if leb 2 failures
    then elim (lowered (get_concurrency_limit c key)) [
      | none ↦ counted
      | some limit ↦ record (set_limit counted key limit) {
        failure_counts = Map.set key 0 counted.failure_counts;
      }
    ]
    else counted

unfoldable pub report_result : Controller → String → Bool → ℕ → Controller
unfolding scale_up scale_down note_success note_failure
report_result c key success now =
    let circuit = get_circuit c key in
    if success
    then scale_up (put_circuit c key (note_success circuit)) key
    else scale_down (put_circuit c key (note_failure now circuit)) key

unfoldable pub reset_circuit : Controller → String → Controller
reset_circuit c key =
    put_circuit c key
      (record (get_circuit c key) { state = closed; failure_count = 0; success_count = 0 })

unfoldable pub get_queue_length : Controller → String → ℕ
get_queue_length c key = length (queue_of c key)

unfoldable pub get_active_count : Controller → String → ℕ
get_active_count c key = count_of c key

unfoldable pub get_circuit_state : Controller → String → CircuitState
get_circuit_state c key = (get_circuit c key).state
