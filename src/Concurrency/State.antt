-- ===== src/Concurrency/State.antt =====
-- src/core/agents/concurrency.ts: the data of `ConcurrencyController`, its limits and its circuits.
-- Times are milliseconds, given by the caller as `now`. A promise that waits is a ticket: the
-- identity of its `resolve`. Heap usage is an argument, compared over the quotients.
use Prim.Native.Char.{code}
use open_supervisor.Prelude.{
  ℕ, ◌-◌, ◌*◌, String, Bool, true, false, Option, none, some, List, [], ltb, ◌==◌, if◌then◌else◌,
}
use open_supervisor.Prelude.Map
use open_supervisor.Prelude.Map.{Map}

pub data TaskPriority : Type 0 where
  high normal low : TaskPriority

abbrev pub rank : TaskPriority → ℕ
rank high = 0
rank normal = 1
rank low = 2

pub data CircuitState : Type 0 where
  closed open_circuit half_open : CircuitState

pub record QueuedTask : Type 0 where
  pub ticket : ℕ
  pub priority : TaskPriority
  pub enqueued_at : ℕ

-- The priority number by which a queue is ordered.
abbrev pub rank_of : QueuedTask → ℕ
rank_of q = rank q.priority

pub record CircuitBreaker : Type 0 where
  pub state : CircuitState
  pub failure_count : ℕ
  pub last_failure_time : ℕ
  pub success_count : ℕ

-- A JavaScript number that is a limit: a natural number or `Infinity`.
pub data Limit : Type 0 where
  finite : ℕ → Limit
  infinity : Limit

pub record ConcurrencyConfig : Type 0 where
  pub default_concurrency : Option ℕ
  pub agent_concurrency : Option (Map ℕ)
  pub provider_concurrency : Option (Map ℕ)
  pub model_concurrency : Option (Map ℕ)

pub record Controller : Type 0 where
  pub counts : Map ℕ
  pub queues : Map (List QueuedTask)
  pub limits : Map Limit
  pub config : ConcurrencyConfig
  pub success_streak : Map ℕ
  pub failure_counts : Map ℕ
  pub circuits : Map CircuitBreaker

abbrev pub circuit_threshold : ℕ
circuit_threshold = 5

abbrev pub circuit_timeout : ℕ
circuit_timeout = 30000

abbrev pub half_open_success : ℕ
half_open_success = 2

abbrev pub max_memory_percent : ℕ
max_memory_percent = 80

abbrev pub default_concurrency : ℕ
default_concurrency = 10

abbrev pub max_concurrency : ℕ
max_concurrency = 50

unfoldable pub new : ConcurrencyConfig → Controller
new config = record {
  counts = [];
  queues = [];
  limits = [];
  config = config;
  success_streak = [];
  failure_counts = [];
  circuits = [];
}

unfoldable pub set_limit : Controller → String → Limit → Controller
set_limit c key limit = record c { limits = Map.set key limit c.limits }

-- `limit === 0 ? Infinity : limit`
abbrev pub or_infinity : Limit → Limit
or_infinity infinity = infinity
or_infinity (finite n) = if n == 0 then infinity else finite n

-- `key.split("/")[0]`
abbrev pub provider : String → String
provider String.[] = String.[]
provider (String.◌∷◌ c s) = if code c == b'/' then String.[] else String.◌∷◌ c (provider s)

-- `table?.[key]`
abbrev pub entry : Option (Map ℕ) → String → Option ℕ
entry none key = none
entry (some table) key = Map.get key table

abbrev pub or_else : Option ℕ → Limit → Limit
or_else none next = next
or_else (some n) next = or_infinity (finite n)

unfoldable pub configured_limit : ConcurrencyConfig → String → Limit
configured_limit config key = or_else (entry config.model_concurrency key) (
    or_else (entry config.provider_concurrency (provider key)) (
      or_else (entry config.agent_concurrency key) (elim config.default_concurrency [
        | none ↦ finite default_concurrency
        | some n ↦ finite n
      ])))

unfoldable pub get_concurrency_limit : Controller → String → Limit
get_concurrency_limit c key = elim (Map.get key c.limits) [
  | none ↦ configured_limit c.config key
  | some explicit_limit ↦ or_infinity explicit_limit
]

abbrev pub fresh_circuit : CircuitBreaker
fresh_circuit = record {
  state = closed;
  failure_count = 0;
  last_failure_time = 0;
  success_count = 0;
}

-- `getCircuit`: the circuit object of the key, made and stored on the first use. A method that
-- then changes the object writes it back with `put_circuit`.
unfoldable pub get_circuit : Controller → String → CircuitBreaker
get_circuit c key = Map.get_or key fresh_circuit c.circuits

unfoldable pub put_circuit : Controller → String → CircuitBreaker → Controller
put_circuit c key circuit = record c { circuits = Map.set key circuit c.circuits }

-- The test of `isCircuitOpen` on the circuit object: the object after it, and the answer.
unfoldable pub probe : ℕ → CircuitBreaker → CircuitBreaker × Bool
probe now circuit = elim circuit.state [
  | open_circuit ↦
      if ltb circuit_timeout (now - circuit.last_failure_time)
      then (record circuit { state = half_open; success_count = 0 }, false)
      else (circuit, true)
  | _ ↦ (circuit, false)
]

unfoldable pub is_circuit_open : Controller → String → ℕ → Controller × Bool
is_circuit_open c key now =
    let (circuit, blocked) = probe now (get_circuit c key) in (put_circuit c key circuit, blocked)

-- `heapUsed / heapTotal * 100 > 80`, over the quotients.
unfoldable pub is_under_resource_pressure : ℕ → ℕ → Bool
is_under_resource_pressure heap_used heap_total =
    ltb (max_memory_percent * heap_total) (heap_used * 100)
