-- ===== src/Workers.antt =====
-- src/core/queue/worker-pool.ts: WorkStealingWorkerPool, workers with a deque each that steal from each
-- other. Worker `i` is the one with the name `worker-i`; a name that is not of a worker is a number out
-- of range. Times, and the wait of an idle worker, are left out. A round of a worker's loop is `take`, up to
-- the call of the executor, and `executed` after it.
use open_supervisor.Deque
use Prim.Native.Nat.{zero}
use open_supervisor.Concurrency.State.{TaskPriority}
use open_supervisor.Deque.{Deque, WorkItem}
pub mod Rows
pub mod Thefts
pub mod Share
pub mod Load
mod Examples
use open_supervisor.Prelude.{
  ltb, [], ◌==◌, ◌%◌, ◌∷◌, set, suc, get_elem?, none, length, some, ◌+◌, true, Option, replicate,
  false, if◌then◌else◌, Bool, List, ℕ,
}

pub record WorkerPool {ℓ} (T : Type ℓ) : Type ℓ where
  pub workers : List (Deque (WorkItem T))
  -- Whether the pool runs, and whether each worker's loop goes on.
  pub running : Bool
  pub loops : List Bool
  pub total_executed : ℕ
  pub total_stolen : ℕ

-- The worker that `submit` takes: the one that is asked for, or the least loaded one.
abbrev pub chosen : Option ℕ → Option (ℕ × ℕ) → Option ℕ
chosen (some i) least = some i
chosen none none = none
chosen none (some (i, load)) = some i

module _ {ℓ} {T : Type ℓ} where
  unfoldable pub new_pool : ℕ → WorkerPool T
  new_pool worker_count = record {
    workers = replicate worker_count (Deque.new 32);
    running = false;
    loops = replicate worker_count false;
    total_executed = 0;
    total_stolen = 0;
  }

  -- `start` runs the loop of every worker up to its first await.
  unfoldable pub start : WorkerPool T → WorkerPool T
  start p =
      if p.running
      then p
      else record p { running = true; loops = replicate (length p.workers) true }

  -- The loop of `getLeastLoadedWorker`, at the worker `i`, with the best one so far.
  unfoldable pub least_from : ℕ → Option (ℕ × ℕ) → List (Deque (WorkItem T)) → Option (ℕ × ℕ)
  least_from i best [] = best
  least_from i none (d ∷ ds) = least_from (suc i) (some (i, Deque.size d)) ds
  least_from i (some (j, load)) (d ∷ ds) =
      least_from (suc i)
        (if ltb (Deque.size d) load then some (i, Deque.size d) else some (j, load)) ds

  unfoldable pub get_least_loaded_worker : WorkerPool T → Option (ℕ × ℕ)
  get_least_loaded_worker p = least_from 0 none p.workers

  abbrev pub push_to :
      WorkItem T → ℕ → Option (Deque (WorkItem T)) → WorkerPool T → Option (WorkerPool T)
  push_to item i none p = none
  push_to item i (some d) p = some (record p { workers = set p.workers i (Deque.push d item) })

  -- `submit`; `none` when it throws, as there is no such worker.
  unfoldable pub submit : T → TaskPriority → Option ℕ → ℕ → WorkerPool T → Option (WorkerPool T)
  submit item priority target now p = elim (chosen target (get_least_loaded_worker p)) [
    | none ↦ none
    | some i ↦
        push_to (record { task = item; priority = priority; enqueued_at = now }) i
          (get_elem? p.workers i) p
  ]

  abbrev pub steal_at :
      ℕ
      → Option (Deque (WorkItem T))
      → List (Deque (WorkItem T))
      → List (Deque (WorkItem T)) × Option (WorkItem T)
  steal_at victim none ds = (ds, none)
  steal_at victim (some d) ds = (set ds victim (Deque.steal d).0, (Deque.steal d).1)

  -- The loop of `trySteal` with `left` rounds left, at the round `i`.
  unfoldable pub steal_from :
      ℕ → ℕ → ℕ → ℕ → List (Deque (WorkItem T)) → List (Deque (WorkItem T)) × Option (WorkItem T)
  steal_from thief begin zero i ds = (ds, none)
  steal_from thief begin (suc left) i ds =
      let victim = (begin + i) % length ds in
      let r = steal_at victim (get_elem? ds victim) ds in
      if victim == thief then steal_from thief begin left (i + 1) ds else elim r.1 [
        | none ↦ steal_from thief begin left (i + 1) r.0
        | some item ↦ (r.0, some item)
      ]

  unfoldable pub try_steal :
      ℕ → ℕ → List (Deque (WorkItem T)) → List (Deque (WorkItem T)) × Option (WorkItem T)
  try_steal thief begin ds = steal_from thief begin (length ds) 0 ds

  -- A round of the loop of a worker up to the call of the executor: the item, and whether it was stolen.
  abbrev pub pop_at :
      ℕ
      → ℕ
      → Option (Deque (WorkItem T))
      → List (Deque (WorkItem T))
      → List (Deque (WorkItem T)) × Option (WorkItem T × Bool)
  pop_at w begin none ds = (ds, none)
  pop_at w begin (some d) ds =
      let r = Deque.pop d in
      let own = set ds w r.0 in
      elim r.1 [
        | some item ↦ (own, some (item, false))
        | none ↦ elim (try_steal w begin own).1 [
          | none ↦ ((try_steal w begin own).0, none)
          | some item ↦ ((try_steal w begin own).0, some (item, true))
        ]
      ]

  unfoldable pub take : ℕ → ℕ → WorkerPool T → WorkerPool T × Option (WorkItem T × Bool)
  take w begin p =
      let r = pop_at w begin (get_elem? p.workers w) p.workers in (record p { workers = r.0 }, r.1)

  -- The executor has returned, or has thrown.
  unfoldable pub executed : Bool → Bool → WorkerPool T → WorkerPool T
  executed returned stolen p =
      if returned
      then record p {
        total_executed = p.total_executed + 1;
        total_stolen = p.total_stolen + (if stolen then 1 else 0);
      }
      else p

  unfoldable pub stop : WorkerPool T → WorkerPool T
  stop p = record p { running = false; loops = replicate (length p.workers) false }

  abbrev pub queued : List (Deque (WorkItem T)) → ℕ
  queued [] = 0
  queued (d ∷ ds) = Deque.size d + queued ds

  unfoldable pub get_queued_count : WorkerPool T → ℕ
  get_queued_count p = queued p.workers
