-- ===== src/Concurrency/Queue.antt =====
-- src/core/agents/concurrency.ts: the priority queues of `ConcurrencyController`.
use open_supervisor.Concurrency.Runs.{
  limits_to, resets, reports, times_out, releases, acquires, Call, run, step,
}
use open_supervisor.Concurrency.Cases.{
  probed, release_slot_cases, acquire_cases, with_count, with_queue, take_slot_cases,
}
use open_supervisor.Concurrency.Control.{
  acquire, reset_circuit, count_of, queued, without_ticket, report_result, remove_from_queue,
  release, queue_of, hand_over, take_slot,
}
use open_supervisor.Concurrency.State.{
  finite, ConcurrencyConfig, new, get_concurrency_limit, CircuitBreaker, get_circuit, probe,
  set_limit, put_circuit, rank_of, QueuedTask, Controller,
}
use open_supervisor.Prelude.{
  All, some, ◌+◌, inr, inl, ◌-◌, insert_by-SortedFrom, Option-cases, ◌≤◌, ◌<◌, [], ◌∷◌, ◌++◌,
  if◌then◌else◌, str_eq, insert_by, ◌==◌, filter, Bool-cases, arith, SortedFrom, List, String, Bool,
  ℕ, ◌≡◌, refl,
}
use open_supervisor.Prelude.Map
use open_supervisor.Prelude.Map.{get-set, get_or-set}

-- The waiting calls of each key stand by priority, highest first.
abbrev pub Ordered : Controller → Type 0
Ordered c = (key : String) → SortedFrom rank_of 0 (queue_of c key)

set-Ordered :
    (c d : Controller) (key : String) (q : List QueuedTask)
    → d.queues ≡ Map.set key q c.queues
    → SortedFrom rank_of 0 q
    → Ordered c
    → Ordered d
set-Ordered c d key q e s h j = elim (Bool-cases (str_eq key j)) [
  | inl hit ↦ rw (e, get_or-set, hit) s
  | inr miss ↦ rw (e, get_or-set, miss) (h j)
]

same-Ordered : (c d : Controller) → d.queues ≡ c.queues → Ordered c → Ordered d
same-Ordered c d e h key = rw e (h key)

weaken : (m n : ℕ) (q : List QueuedTask) → m ≤ n → SortedFrom rank_of n q → SortedFrom rank_of m q
weaken m n [] h s = tt
weaken m n (x ∷ q) h s = (omega arith, s.1)

take_slot-Ordered :
    (c : Controller) (key : String) (t : QueuedTask) → Ordered c → Ordered (take_slot c key t).0
take_slot-Ordered c key t h =
    take_slot_cases (λ r. Ordered r.0) c key t (λ _. h)
      (λ n _ _. same-Ordered c (with_count c key (count_of c key + 1)) refl h)
      λ n _ _.
        set-Ordered c (with_queue c key (insert_by rank_of t (queue_of c key))) key _ refl
          (insert_by-SortedFrom rank_of 0 t (queue_of c key) (omega arith) (h key)) h

release-Ordered : (c : Controller) (key : String) → Ordered c → Ordered (release c key).0
release-Ordered c key h =
    release_slot_cases (λ r. Ordered r.0) c key (λ _. h)
      (λ n t q _ e. set-Ordered c (with_queue c key q) key q refl (tail t q e) h)
      (λ n _ _ _. same-Ordered c (with_count c key (count_of c key - 1)) refl h) (λ n _ _ _. h)
  where
    tail : (t : QueuedTask) (q : List QueuedTask) → queue_of c key ≡ t ∷ q → SortedFrom rank_of 0 q
    tail t q e =
        let s : SortedFrom rank_of 0 (t ∷ q) = rw e at (h key) in
        weaken 0 (rank_of t) q (omega arith) s.1

without_ticket-SortedFrom :
    (k n : ℕ) (q : List QueuedTask)
    → SortedFrom rank_of n q
    → SortedFrom rank_of n (without_ticket k q)
without_ticket-SortedFrom k n [] s = tt
without_ticket-SortedFrom k n (x ∷ q) s =
    ground (arith, without_ticket-SortedFrom k (rank_of x) q s.1, weaken n (rank_of x) q)

remove_from_queue-Ordered :
    (c : Controller) (key : String) (k : ℕ) → Ordered c → Ordered (remove_from_queue c key k)
unfolding remove_from_queue Map.get_or
remove_from_queue-Ordered c key k h = elim (Option-cases (Map.get key c.queues)) [
  | inl e ↦ rw (e, remove_from_queue) h
  | inr (q, e) ↦
      rw (e, remove_from_queue)
        (set-Ordered c (with_queue c key (without_ticket k q)) key _ refl
          (without_ticket-SortedFrom k 0 q (rw (e, Map.get_or) at (h key))) h)
]

queues-report_result :
    (c : Controller) (key : String) (success : Bool) (now : ℕ)
    → (report_result c key success now).queues ≡ c.queues
unfolding report_result put_circuit set_limit
queues-report_result c key success now = ground arith

put_circuit-Ordered :
    (c : Controller) (key : String) (b : CircuitBreaker) → Ordered c → Ordered (put_circuit c key b)
unfolding put_circuit
put_circuit-Ordered c key b h = same-Ordered c (put_circuit c key b) refl h

acquire-Ordered :
    (c : Controller) (key : String) (t : QueuedTask) (used total : ℕ)
    → Ordered c
    → Ordered (acquire c key t used total).0
acquire-Ordered c key t used total h =
    let ready = put_circuit-Ordered c key (probe t.enqueued_at (get_circuit c key)).0 h in
    acquire_cases (λ r. Ordered r.0) c key t used total (λ _. ready) (λ _. ready)
      (λ _. take_slot-Ordered (probed c key t) key t ready)

step-Ordered : (c : Controller) (call : Call) → Ordered c → Ordered (step c call)
unfolding step set_limit reset_circuit
step-Ordered c (acquires key t used total) h = acquire-Ordered c key t used total h
step-Ordered c (releases key) h = release-Ordered c key h
step-Ordered c (times_out key n) h = remove_from_queue-Ordered c key n h
step-Ordered c (reports key success now) h =
    same-Ordered c (report_result c key success now) (queues-report_result c key success now) h
step-Ordered c (resets key) h = put_circuit-Ordered c key _ h
step-Ordered c (limits_to key limit) h = same-Ordered c (set_limit c key limit) refl h

run-Ordered : (c : Controller) (calls : List Call) → Ordered c → Ordered (run c calls)
unfolding run
run-Ordered c [] h = h
run-Ordered c (call ∷ calls) h = run-Ordered (step c call) calls (step-Ordered c call h)

-- A task that joins stands behind the waiting tasks of its own priority, and the tasks of every
-- other priority keep their order.
abbrev pub same_rank : ℕ → QueuedTask → Bool
same_rank r q = rank_of q == r

filter-none :
    (r n : ℕ) (q : List QueuedTask) → SortedFrom rank_of n q → r < n → filter (same_rank r) q ≡ []
filter-none r n [] s h = refl
filter-none r n (x ∷ q) s h = ground (arith, filter-none r (rank_of x) q s.1)

pub filter-insert_by :
    (r n : ℕ) (t : QueuedTask) (q : List QueuedTask)
    → SortedFrom rank_of n q
    → filter (same_rank r) (insert_by rank_of t q)
      ≡ (if rank_of t == r then filter (same_rank r) q ++ t ∷ [] else filter (same_rank r) q)
filter-insert_by r n t [] s = ground arith
filter-insert_by r n t (x ∷ q) s =
    ground (arith, filter-insert_by r (rank_of x) t q s.1, filter-none r (rank_of x) q s.1)

-- After any calls on a new controller, the waiting calls of every key stand in the order of their
-- priority, highest first.
pub run-new-Ordered :
    (config : ConcurrencyConfig) (calls : List Call) → Ordered (run (new config) calls)
unfolding new Map.get_or Map.get
run-new-Ordered config calls = run-Ordered (new config) calls (λ key. tt)

-- What a call that waits does to the queues.
abbrev Joins : Controller → String → QueuedTask → ℕ → String → Controller → Type 0
Joins c key t r j after =
    (filter (same_rank r) (queue_of after key) ≡ (
      if rank_of t == r
      then filter (same_rank r) (queue_of c key) ++ t ∷ []
      else filter (same_rank r) (queue_of c key)))
    × (queue_of after j ≡ (if str_eq key j then queue_of after key else queue_of c j))

take_slot-Joins :
    (c : Controller) (key : String) (t : QueuedTask) (r : ℕ) (j : String)
    → Ordered c
    → (take_slot c key t).1 ≡ queued
    → Joins c key t r j (take_slot c key t).0
take_slot-Joins c key t r j h =
    take_slot_cases (λ x. x.1 ≡ queued → Joins c key t r j x.0) c key t (λ _ e. cc) (λ _ _ _ e. cc)
      λ n _ _ _. (
        rw Map.get_or-set_self (filter-insert_by r 0 t (queue_of c key) (h key)),
        rw (get_or-set, Map.get_or-set_self) refl,
      )

-- A call of `acquire` that has to wait stands behind the waiting calls of its own priority, and
-- among the calls of each other priority nothing changes; no other key's queue changes.
pub acquire_waits_in_order :
    (c : Controller) (key : String) (t : QueuedTask) (used total : ℕ) (r : ℕ) (j : String)
    → Ordered c
    → (acquire c key t used total).1 ≡ queued
    → let after = (acquire c key t used total).0 in
      (filter (same_rank r) (queue_of after key) ≡ (
        if rank_of t == r
        then filter (same_rank r) (queue_of c key) ++ t ∷ []
        else filter (same_rank r) (queue_of c key)))
      × (queue_of after j ≡ (if str_eq key j then queue_of after key else queue_of c j))
unfolding put_circuit
acquire_waits_in_order c key t used total r j h =
    acquire_cases (λ x. x.1 ≡ queued → Joins c key t r j x.0) c key t used total (λ _ e. cc)
      (λ _ e. cc)
      (λ _.
        take_slot-Joins (probed c key t) key t r j
          (put_circuit-Ordered c key (probe t.enqueued_at (get_circuit c key)).0 h))

All-from : (n : ℕ) (q : List QueuedTask) → SortedFrom rank_of n q → All (λ x. n ≤ rank_of x) q
All-from n [] s = tt
All-from n (x ∷ q) s = (s.0, All-from n q (weaken n (rank_of x) q s.0 s.1))

-- `release` under a limit resumes the first waiting call: none that waits has a higher priority,
-- and the queue keeps the others in their order.
pub release_serves_first :
    (c : Controller) (key : String) (limit : ℕ) (t : QueuedTask) (rest : List QueuedTask)
    → Ordered c
    → get_concurrency_limit c key ≡ finite limit
    → queue_of c key ≡ t ∷ rest
    → ((release c key).1 ≡ some t.ticket)
      × (queue_of (release c key).0 key ≡ rest)
      × (count_of (release c key).0 key ≡ count_of c key)
      × All (λ q. rank_of t ≤ rank_of q) rest
unfolding release hand_over
release_serves_first c key limit t rest h e q =
    let s : SortedFrom rank_of 0 (t ∷ rest) = rw q at (h key) in
    rw (e, release)
      (rw (q, hand_over)
        (refl, Map.get_or-set_self key [] rest c.queues, refl, All-from _ rest s.1))
