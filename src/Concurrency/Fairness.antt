-- ===== src/Concurrency/Fairness.antt =====
-- src/core/agents/concurrency.ts: slots and waiting calls of a key under a limit that does not move,
-- and what a raised limit does to the waiting calls.
use open_supervisor.Concurrency.Scaling.{third_success}
use open_supervisor.Concurrency.Runs.{step}
use open_supervisor.Concurrency.Cases.{
  take_slot_cases, acquire_cases, release_slot_cases, with_count, probed, with_queue,
}
use open_supervisor.Concurrency.Slots.{
  resets, elsewhere, same_limit, adapts, expires, leaves, enters, here, entered, next, left, Step,
  Steps,
}
use open_supervisor.Concurrency.Frame.{
  step-Same, counts-report_result, queues-report_result, put_circuit-Same, Same,
}
use open_supervisor.Concurrency.Control.{
  reset_circuit, report_result, queue_of, without_ticket, acquire, release, count_of,
  remove_from_queue,
}
use open_supervisor.Concurrency.State.{
  max_concurrency, finite, QueuedTask, Controller, get_concurrency_limit,
}
use open_supervisor.Prelude.{
  ◌-◌, subst, ◌+◌, true, refl, ◌∷◌, sym, ◌⊎◌, inr, arith, ◌∙◌, false, ◌<◌, ◌≤◌, inl, [], ◌≡◌,
  Option-cases, suc, List, Bool, String, ℕ,
}
use open_supervisor.Prelude.Map

-- With a limit that nothing moves: no more holders than the limit, and calls wait only while all
-- the slots are held.
pub record Fair (k : String) (limit : ℕ) (c : Controller) (n : ℕ) : Type 0 where
  pub exact : count_of c k ≡ n
  pub limited : get_concurrency_limit c k ≡ finite limit
  pub slots : n ≤ limit
  pub busy : (queue_of c k ≡ []) ⊎ (n ≡ limit)

Same-Fair :
    (k : String) (limit : ℕ) (c d : Controller) (n : ℕ)
    → Same k c d
    → Fair k limit c n
    → Fair k limit d n
Same-Fair k limit c d n s f = record {
  exact = s.count ∙ f.exact;
  limited = s.limit ∙ f.limited;
  slots = f.slots;
  busy = ground (arith, s.queue, f.busy);
}

count-Fair :
    (k : String) (limit : ℕ) (c : Controller) (n m r : ℕ)
    → m ≡ r
    → r ≤ limit
    → (queue_of c k ≡ []) ⊎ (r ≡ limit)
    → Fair k limit c n
    → Fair k limit (with_count c k m) r
unfolding get_concurrency_limit
count-Fair k limit c n m r e h busy f = record {
  exact = Map.get_or-set_self k 0 m c.counts ∙ e;
  limited = f.limited;
  slots = h;
  busy = busy;
}

queue-Fair :
    (k : String) (limit : ℕ) (c : Controller) (n : ℕ) (q : List QueuedTask)
    → (q ≡ []) ⊎ (n ≡ limit)
    → Fair k limit c n
    → Fair k limit (with_queue c k q) n
unfolding get_concurrency_limit
queue-Fair k limit c n q busy f = record {
  exact = f.exact;
  limited = f.limited;
  slots = f.slots;
  busy = ground (arith, Map.get_or-set_self k [] q c.queues, busy);
}

enter-Fair :
    (k : String) (limit : ℕ) (c : Controller) (n : ℕ) (t : QueuedTask) (used total : ℕ)
    → Fair k limit c n
    → Fair k limit (acquire c k t used total).0 (entered (acquire c k t used total).1 n)
enter-Fair k limit c n t used total f =
    acquire_cases (λ r. Fair k limit r.0 (entered r.1 n)) c k t used total (λ _. ready) (λ _. ready)
      (λ _.
        take_slot_cases (λ r. Fair k limit r.0 (entered r.1 n)) p k t
          (λ e. absurd (ground (arith, e, ready.limited)))
          (λ l e lt.
            let same = same_limit p k l limit e ready.limited in
            count-Fair k limit p n (count_of p k + 1) (n + 1) (omega (arith, ready.exact))
              (omega (arith, same, ready.exact))
              (inl (idle p ready (omega (arith, same, ready.exact)))) ready)
          (λ l e ge.
            queue-Fair k limit p n _
              (inr
                (omega (arith, same_limit p k l limit e ready.limited, ready.exact, ready.slots)))
              ready))
  where
    idle : (d : Controller) → Fair k limit d n → n < limit → queue_of d k ≡ []
    idle d g h = ground (arith, g.busy)

    p : Controller
    p = probed c k t

    ready : Fair k limit p n
    ready = Same-Fair k limit c p n (put_circuit-Same k c k _) f

leave-Fair :
    (k : String) (limit : ℕ) (c : Controller) (n : ℕ)
    → Fair k limit c (suc n)
    → Fair k limit (release c k).0 (left (release c k).1 n)
leave-Fair k limit c n f =
    release_slot_cases (λ r. Fair k limit r.0 (left r.1 n)) c k
      (λ e. absurd (ground (arith, e, f.limited)))
      (λ l t rest _ q.
        let e : suc n ≡ n + 1 = omega arith in
        subst (Fair k limit _) e (queue-Fair k limit c (suc n) rest (inr (full t rest q)) f))
      (λ l _ q _.
        count-Fair k limit c (suc n) (count_of c k - 1) n (omega (arith, f.exact))
          (omega (arith, f.slots)) (inl q) f)
      (λ l _ _ z. absurd (omega (arith, z, f.exact)))
  where
    full : (t : QueuedTask) (rest : List QueuedTask) → queue_of c k ≡ t ∷ rest → suc n ≡ limit
    full t rest q = ground (arith, q, f.busy)

without_nothing : (ticket : ℕ) (q : List QueuedTask) → q ≡ [] → without_ticket ticket q ≡ []
without_nothing ticket q e = rw e

expire-Fair :
    (k : String) (limit : ℕ) (c : Controller) (n ticket : ℕ)
    → Fair k limit c n
    → Fair k limit (remove_from_queue c k ticket) n
unfolding remove_from_queue Map.get_or
expire-Fair k limit c n ticket f = elim (Option-cases (Map.get k c.queues)) [
  | inl e ↦ rw (e, remove_from_queue) f
  | inr (q, e) ↦
      let found : queue_of c k ≡ q = rw (e, Map.get_or) in
      rw (e, remove_from_queue)
        (queue-Fair k limit c n (without_ticket ticket q)
          (elim f.busy [
            | inl none_waits ↦ inl (without_nothing ticket q (sym found ∙ none_waits))
            | inr full ↦ inr full
          ])
          f)
]

Step-Fair :
    (k : String) (limit : ℕ) {adaptive : Bool} {c d : Controller} {n m : ℕ}
    → adaptive ≡ false
    → Step k adaptive c n d m
    → Fair k limit c n
    → Fair k limit d m
unfolding reset_circuit
Step-Fair k limit h (enters c n t used total) f = enter-Fair k limit c n t used total f
Step-Fair k limit h (leaves c n) f = leave-Fair k limit c n f
Step-Fair k limit h (expires c n ticket) f = expire-Fair k limit c n ticket f
Step-Fair k limit h (adapts c n success now e) f = absurd (ground (arith, h, e))
Step-Fair k limit h (resets c n) f =
    Same-Fair k limit c (reset_circuit c k) n (put_circuit-Same k c k _) f
Step-Fair k limit h (elsewhere c n call other) f =
    Same-Fair k limit c (step c call) n (step-Same k c call other) f

-- Let a key have a number as its limit, no more holders than that, their number as its count, and calls
-- that wait only while every slot is held. This stays so when calls for the key are granted, resumed,
-- released or timed out and its circuit is reset in any order, and calls for other keys come in between, if
-- each release of the key is made by a call that holds a slot, no result of the key is reported, and
-- nobody calls setLimit for it.
pub Steps-Fair :
    (k : String) (limit : ℕ) {c : Controller} {n : ℕ} {d : Controller} {m : ℕ}
    → Fair k limit c n
    → Steps k false c n d m
    → Fair k limit d m
Steps-Fair k limit f here = f
Steps-Fair k limit f (next steps last) = Step-Fair k limit refl last (Steps-Fair k limit f steps)

-- Raising the limit of a key while calls wait resumes none of them: the state is no longer fair.
pub third_success_unfair :
    (k : String) (limit : ℕ) (c : Controller) (n now : ℕ) (t : QueuedTask) (rest : List QueuedTask)
    → Fair k limit c n
    → limit < max_concurrency
    → 2 ≤ Map.get_or k 0 c.success_streak
    → queue_of c k ≡ t ∷ rest
    → let after = report_result c k true now in
      (queue_of after k ≡ t ∷ rest)
      × (count_of after k ≡ limit)
      × (get_concurrency_limit after k ≡ finite (limit + 1))
third_success_unfair k limit c n now t rest f h streak q = (
  queues-report_result c k true now k ∙ q,
  counts-report_result c k true now ∙ f.exact ∙ ground (arith, f.busy, q),
  (third_success c k now limit f.limited h streak).0,
)
