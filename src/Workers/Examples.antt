-- ===== src/Workers/Examples.antt =====
-- The theorems about src/core/queue/worker-pool.ts at concrete inputs.
use open_supervisor.Deque.Refine.{push-Holds, Holds, new-Holds}
use open_supervisor.Deque.{WorkItem}
use open_supervisor.Concurrency.State.{normal}
use open_supervisor.Workers.Share.{take-Takes, Takes}
use open_supervisor.Workers.Rows.{replicate-Rows, set-Rows, Rows}
use open_supervisor.Workers.{take, new_pool, WorkerPool}
use open_supervisor.Prelude.{replicate, arith, ◌∷◌, [], List, ℕ}
use open_supervisor.Deque

abbrev work : ℕ → WorkItem ℕ
work n = record { task = n; priority = normal; enqueued_at = 0 }

-- Two workers; the second one has two items.
abbrev pool : WorkerPool ℕ
pool = record (new_pool 2) {
  workers = Deque.new 32 ∷ Deque.push (Deque.push (Deque.new 32) (work 1)) (work 2) ∷ [];
}

abbrev rows : List (List (WorkItem ℕ))
rows = [] ∷ (work 1 ∷ work 2 ∷ []) ∷ []

pool-Rows : Rows pool.workers rows
pool-Rows =
    let empty : Holds (Deque.new {A = WorkItem ℕ} 32) [] = new-Holds 32 (omega arith) in
    set-Rows (replicate 2 (Deque.new 32)) (replicate 2 []) 1 _ (work 1 ∷ work 2 ∷ [])
      (replicate-Rows 2 (Deque.new 32) empty)
      (push-Holds _ (work 1 ∷ []) (work 2) (push-Holds _ [] (work 1) empty))

take-Takes_example : Takes 0 rows ((take 0 1 pool).0.workers, (take 0 1 pool).1)
take-Takes_example = take-Takes 0 1 pool rows pool-Rows (omega arith) (omega arith)
