-- ===== src/Concurrency/Runs.antt =====
-- A history of the controller of src/core/agents/concurrency.ts: the calls of its methods that
-- change its state, and the 300 s timer of a queued call, in any order.
use open_supervisor.Prelude.{ℕ, String, Bool, List, [], ◌∷◌}
use open_supervisor.Concurrency.State.{QueuedTask, Limit, Controller, set_limit}
use open_supervisor.Concurrency.Control.{
  acquire, release, remove_from_queue, report_result, reset_circuit,
}

pub data Call : Type 0 where
  acquires : String → QueuedTask → ℕ → ℕ → Call
  releases : String → Call
  times_out : String → ℕ → Call
  reports : String → Bool → ℕ → Call
  resets : String → Call
  limits_to : String → Limit → Call

unfoldable pub step : Controller → Call → Controller
step c (acquires key task heap_used heap_total) = (acquire c key task heap_used heap_total).0
step c (releases key) = (release c key).0
step c (times_out key ticket) = remove_from_queue c key ticket
step c (reports key success now) = report_result c key success now
step c (resets key) = reset_circuit c key
step c (limits_to key limit) = set_limit c key limit

unfoldable pub run : Controller → List Call → Controller
run c [] = c
run c (call ∷ calls) = run (step c call) calls

-- The key that the call is about.
abbrev pub key_of : Call → String
key_of (acquires key task heap_used heap_total) = key
key_of (releases key) = key
key_of (times_out key ticket) = key
key_of (reports key success now) = key
key_of (resets key) = key
key_of (limits_to key limit) = key
