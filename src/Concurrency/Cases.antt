-- ===== src/Concurrency/Cases.antt =====
-- How a call of src/core/agents/concurrency.ts ends: case rules for the proofs about it.
use open_supervisor.Prelude.Map.{Map}
use open_supervisor.Prelude.Map
use open_supervisor.Prelude.{
  Option-cases, leb, arith, ltb→le, ltb→lt, ltb, refl, insert_by, ◌-◌, [], ◌≤◌, some, ◌+◌, ◌∷◌, ◌<◌,
  ◌⊎◌, none, Option, List, ℕ, String, true, false, ◌≡◌, ◌&&◌, inl, inr, Bool-cases,
}
use open_supervisor.Concurrency.State.{
  set_limit, rank_of, finite, infinity, Limit, get_concurrency_limit, QueuedTask, Controller,
  get_circuit, put_circuit, probe, is_circuit_open, is_under_resource_pressure,
}
use open_supervisor.Concurrency.Control.{
  lowered, raised, scale_up, scale_down, hand_over, queued, release, queue_of, count_of, granted,
  Admission, refused, circuit_open, resource_pressure, is_low, acquire, take_slot,
}

-- The controller once `acquire` has looked at the circuit.
abbrev pub probed : Controller → String → QueuedTask → Controller
probed c key t = put_circuit c key (probe t.enqueued_at (get_circuit c key)).0

module _ {ℓ} (P : Controller × Admission → Type ℓ) (c : Controller) (key : String) (t : QueuedTask)
    (used total : ℕ) where
  -- The breaker refuses, memory pressure refuses, or the call goes on to the slots.
  pub acquire_cases :
      ((probe t.enqueued_at (get_circuit c key)).1 ≡ true
        → P (probed c key t, refused circuit_open))
      → ((is_under_resource_pressure used total && is_low t.priority) ≡ true
          → P (probed c key t, refused resource_pressure))
      → ((is_under_resource_pressure used total && is_low t.priority) ≡ false
          → P (take_slot (probed c key t) key t))
      → P (acquire c key t used total)
  unfolding acquire is_circuit_open
  acquire_cases blocked pressed free =
      elim (Bool-cases (probe t.enqueued_at (get_circuit c key)).1) [
        | inl e ↦ rw e (blocked e)
        | inr e ↦
            rw e (elim (Bool-cases (is_under_resource_pressure used total && is_low t.priority)) [
              | inl p ↦ rw p (pressed p)
              | inr p ↦ rw p (free p)
            ])
      ]

Limit-cases : (l : Limit) → (l ≡ infinity) ⊎ ((n : ℕ) × (l ≡ finite n))
Limit-cases infinity = inl refl
Limit-cases (finite n) = inr (n, refl)

-- The controller with one slot more taken, with one given back, and with another queue.
abbrev pub with_count : Controller → String → ℕ → Controller
with_count c key n = record c { counts = Map.set key n c.counts }

abbrev pub with_queue : Controller → String → List QueuedTask → Controller
with_queue c key q = record c { queues = Map.set key q c.queues }

module _ {ℓ} (P : Controller × Admission → Type ℓ) (c : Controller) (key : String)
    (t : QueuedTask) where
  pub take_slot_cases :
      (get_concurrency_limit c key ≡ infinity → P (c, granted))
      → ((limit : ℕ)
          → get_concurrency_limit c key ≡ finite limit
          → count_of c key < limit
          → P (with_count c key (count_of c key + 1), granted))
      → ((limit : ℕ)
          → get_concurrency_limit c key ≡ finite limit
          → limit ≤ count_of c key
          → P (with_queue c key (insert_by rank_of t (queue_of c key)), queued))
      → P (take_slot c key t)
  unfolding take_slot
  take_slot_cases free slot wait = elim (Limit-cases (get_concurrency_limit c key)) [
    | inl e ↦ rw (e, take_slot) (free e)
    | inr (n, e) ↦ elim (Bool-cases (ltb (count_of c key) n)) [
      | inl lt ↦ rw (e, take_slot) (rw lt (slot n e (ltb→lt _ _ lt)))
      | inr ge ↦ rw (e, take_slot) (rw ge (wait n e (ltb→le _ _ ge)))
    ]
  ]

module _ {ℓ} (P : Controller × Option ℕ → Type ℓ) (c : Controller) (key : String) where
  hand_over_cases :
      (q : List QueuedTask)
      → ((next : QueuedTask) (rest : List QueuedTask)
          → q ≡ next ∷ rest
          → P (with_queue c key rest, some next.ticket))
      → (q ≡ [] → 0 < count_of c key → P (with_count c key (count_of c key - 1), none))
      → (q ≡ [] → count_of c key ≡ 0 → P (c, none))
      → P (hand_over c key q)
  unfolding hand_over
  hand_over_cases (next ∷ rest) resume give spare = resume next rest refl
  hand_over_cases [] resume give spare = elim (Bool-cases (ltb 0 (count_of c key))) [
    | inl lt ↦ rw lt (give refl (ltb→lt _ _ lt))
    | inr ge ↦ rw ge (spare refl (omega (arith, ltb→le 0 (count_of c key) ge)))
  ]

  pub release_cases :
      (get_concurrency_limit c key ≡ infinity → P (c, none))
      → ((limit : ℕ)
          → get_concurrency_limit c key ≡ finite limit
          → P (hand_over c key (queue_of c key)))
      → P (release c key)
  unfolding release
  release_cases free busy = elim (Limit-cases (get_concurrency_limit c key)) [
    | inl e ↦ rw (e, release) (free e)
    | inr (n, e) ↦ rw (e, release) (busy n e)
  ]

  -- A key without a limit holds no slot; else the head of the queue is resumed, or a slot comes
  -- back, or there is none to give back.
  pub release_slot_cases :
      (get_concurrency_limit c key ≡ infinity → P (c, none))
      → ((limit : ℕ) (next : QueuedTask) (rest : List QueuedTask)
          → get_concurrency_limit c key ≡ finite limit
          → queue_of c key ≡ next ∷ rest
          → P (with_queue c key rest, some next.ticket))
      → ((limit : ℕ)
          → get_concurrency_limit c key ≡ finite limit
          → queue_of c key ≡ []
          → 0 < count_of c key
          → P (with_count c key (count_of c key - 1), none))
      → ((limit : ℕ)
          → get_concurrency_limit c key ≡ finite limit
          → queue_of c key ≡ []
          → count_of c key ≡ 0
          → P (c, none))
      → P (release c key)
  release_slot_cases free resume give spare =
      release_cases free
        λ n e. hand_over_cases (queue_of c key) (λ t q. resume n t q e) (give n e) (spare n e)

-- A report leaves the limits as they were, or gives the key a raised or a lowered one.
module _ {ℓ} (P : Map Limit → Type ℓ) (c : Controller) (key : String) where
  pub scale_up_cases :
      P c.limits
      → ((l : Limit) → raised (get_concurrency_limit c key) ≡ some l → P (Map.set key l c.limits))
      → P (scale_up c key).limits
  unfolding scale_up set_limit
  scale_up_cases stay grow = elim (Bool-cases (leb 3 (Map.get_or key 0 c.success_streak + 1))) [
    | inl full ↦ elim (Option-cases (raised (get_concurrency_limit c key))) [
      | inl e ↦ rw (full, e, scale_up) stay
      | inr (l, e) ↦ rw (full, e, scale_up) (grow l e)
    ]
    | inr more ↦ rw (more, scale_up) stay
  ]

  pub scale_down_cases :
      P c.limits
      → ((l : Limit) → lowered (get_concurrency_limit c key) ≡ some l → P (Map.set key l c.limits))
      → P (scale_down c key).limits
  unfolding scale_down set_limit
  scale_down_cases stay shrink = elim (Bool-cases (leb 2 (Map.get_or key 0 c.failure_counts + 1))) [
    | inl full ↦ elim (Option-cases (lowered (get_concurrency_limit c key))) [
      | inl e ↦ rw (full, e, scale_down) stay
      | inr (l, e) ↦ rw (full, e, scale_down) (shrink l e)
    ]
    | inr more ↦ rw (more, scale_down) stay
  ]
