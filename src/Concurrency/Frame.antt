-- ===== src/Concurrency/Frame.antt =====
-- src/core/agents/concurrency.ts: what a call about one key leaves alone, for the proofs about the
-- slots of another key.
use open_supervisor.Concurrency.Runs.{
  key_of, limits_to, resets, reports, times_out, releases, acquires, Call, step,
}
use open_supervisor.Prelude.Map.{Map}
use open_supervisor.Concurrency.Cases.{
  acquire_cases, probed, scale_down_cases, scale_up_cases, take_slot_cases, with_count, with_queue,
  release_slot_cases,
}
use open_supervisor.Concurrency.Control.{
  note_failure, note_success, acquire, report_result, reset_circuit, scale_down, without_ticket,
  take_slot, remove_from_queue, scale_up, release, queue_of, count_of,
}
use open_supervisor.Concurrency.State.{
  probe, get_circuit, configured_limit, or_infinity, rank_of, Limit, QueuedTask, set_limit,
  CircuitBreaker, get_concurrency_limit, Controller, put_circuit,
}
use open_supervisor.Prelude.{
  true, ap, Bool, if◌then◌else◌, insert_by, ◌+◌, inr, inl, ◌-◌, arith, Option-cases, List, ℕ, refl,
  false, ◌≡◌, str_eq, ◌∙◌, String,
}
use open_supervisor.Prelude.Map

-- The slots, the queue and the limit of a key are the same in both states.
pub record Same (k : String) (c d : Controller) : Type 0 where
  pub count : count_of d k ≡ count_of c k
  pub queue : queue_of d k ≡ queue_of c k
  pub limit : get_concurrency_limit d k ≡ get_concurrency_limit c k

pub Same-refl : (k : String) (c : Controller) → Same k c c
Same-refl k c = record { count = refl; queue = refl; limit = refl }

pub Same-trans : (k : String) (c d e : Controller) → Same k c d → Same k d e → Same k c e
Same-trans k c d e p q = record {
  count = q.count ∙ p.count;
  queue = q.queue ∙ p.queue;
  limit = q.limit ∙ p.limit;
}

-- A change to the circuits, the streaks or the failure counts.
pub put_circuit-Same :
    (k : String) (c : Controller) (key : String) (b : CircuitBreaker)
    → Same k c (put_circuit c key b)
unfolding put_circuit get_concurrency_limit
put_circuit-Same k c key b = record { count = refl; queue = refl; limit = refl }

-- The limit of a key under new limits and the same configuration.
pub limit_of_limits :
    (k : String) (c d : Controller)
    → d.limits ≡ c.limits
    → d.config ≡ c.config
    → get_concurrency_limit d k ≡ get_concurrency_limit c k
unfolding get_concurrency_limit
limit_of_limits k c d l e = rw (l, e)

pub limit_of_set :
    (k key : String) (l : Limit) (c d : Controller)
    → d.limits ≡ Map.set key l c.limits
    → d.config ≡ c.config
    → get_concurrency_limit d k
      ≡ (if str_eq key k then or_infinity l else get_concurrency_limit c k)
unfolding get_concurrency_limit
limit_of_set k key l c d e f =
    ground (arith, ap (Map.get k) e, ap (λ g. configured_limit g k) f, Map.get-set key k l c.limits)

pub config-scale_up : (key : String) (c : Controller) → (scale_up c key).config ≡ c.config
unfolding scale_up set_limit
config-scale_up key c = ground arith

pub config-scale_down : (key : String) (c : Controller) → (scale_down c key).config ≡ c.config
unfolding scale_down set_limit
config-scale_down key c = ground arith

-- A report moves no slot and no waiting call, of any key.
pub counts-scale_up : (k key : String) (c : Controller) → count_of (scale_up c key) k ≡ count_of c k
unfolding scale_up set_limit
counts-scale_up k key c = ground arith

pub queues-scale_up : (k key : String) (c : Controller) → queue_of (scale_up c key) k ≡ queue_of c k
unfolding scale_up set_limit
queues-scale_up k key c = ground arith

pub counts-scale_down :
    (k key : String) (c : Controller) → count_of (scale_down c key) k ≡ count_of c k
unfolding scale_down set_limit
counts-scale_down k key c = ground arith

pub queues-scale_down :
    (k key : String) (c : Controller) → queue_of (scale_down c key) k ≡ queue_of c k
unfolding scale_down set_limit
queues-scale_down k key c = ground arith

pub counts-report_result :
    (c : Controller) (key : String) (success : Bool) (now : ℕ)
    → count_of (report_result c key success now) key ≡ count_of c key
unfolding report_result put_circuit
counts-report_result c key true now = counts-scale_up key key _
counts-report_result c key false now = counts-scale_down key key _

pub queues-report_result :
    (c : Controller) (key : String) (success : Bool) (now : ℕ) (k : String)
    → queue_of (report_result c key success now) k ≡ queue_of c k
unfolding report_result put_circuit
queues-report_result c key true now k = queues-scale_up k key _
queues-report_result c key false now k = queues-scale_down k key _

module _ (k key : String) (c : Controller) (other : str_eq key k ≡ false) where
  with_count-Same : (n : ℕ) → Same k c (with_count c key n)
  unfolding get_concurrency_limit
  with_count-Same n = record { count = rw (Map.get_or-set, other); queue = refl; limit = refl }

  with_queue-Same : (q : List QueuedTask) → Same k c (with_queue c key q)
  unfolding get_concurrency_limit
  with_queue-Same q = record { count = refl; queue = rw (Map.get_or-set, other); limit = refl }

  pub set_limit-Same : (l : Limit) → Same k c (set_limit c key l)
  unfolding set_limit
  set_limit-Same l = record {
    count = refl;
    queue = refl;
    limit = rw (limit_of_set k key l c (set_limit c key l) refl refl, other);
  }

  pub take_slot-Same : (t : QueuedTask) → Same k c (take_slot c key t).0
  take_slot-Same t =
      take_slot_cases (λ r. Same k c r.0) c key t (λ _. Same-refl k c)
        (λ n _ _. with_count-Same (count_of c key + 1))
        (λ n _ _. with_queue-Same (insert_by rank_of t (queue_of c key)))

  pub release-Same : Same k c (release c key).0
  release-Same =
      release_slot_cases (λ r. Same k c r.0) c key (λ _. Same-refl k c)
        (λ n t rest _ _. with_queue-Same rest) (λ n _ _ _. with_count-Same (count_of c key - 1))
        (λ n _ _ _. Same-refl k c)

  pub remove_from_queue-Same : (ticket : ℕ) → Same k c (remove_from_queue c key ticket)
  unfolding remove_from_queue
  remove_from_queue-Same ticket = elim (Option-cases (Map.get key c.queues)) [
    | inl e ↦ rw (e, remove_from_queue) (Same-refl k c)
    | inr (q, e) ↦ rw (e, remove_from_queue) (with_queue-Same (without_ticket ticket q))
  ]

  other_limits :
      (d : Controller) (m : Map Limit)
      → (get_concurrency_limit (record c { limits = m }) k ≡ get_concurrency_limit c k)
      → d.limits ≡ m
      → d.config ≡ c.config
      → get_concurrency_limit d k ≡ get_concurrency_limit c k
  other_limits d m e p q = limit_of_limits k (record c { limits = m }) d p q ∙ e

  unmoved :
      (l : Limit)
      → get_concurrency_limit (record c { limits = Map.set key l c.limits }) k
        ≡ get_concurrency_limit c k
  unmoved l =
      rw (limit_of_set k key l c (record c { limits = Map.set key l c.limits }) refl refl, other)

  scale_up-Same : Same k c (scale_up c key)
  scale_up-Same = record {
    count = counts-scale_up k key c;
    queue = queues-scale_up k key c;
    limit =
        other_limits (scale_up c key) (scale_up c key).limits
          (scale_up_cases
            (λ m. get_concurrency_limit (record c { limits = m }) k ≡ get_concurrency_limit c k) c
            key refl (λ l _. unmoved l))
          refl (config-scale_up key c);
  }

  scale_down-Same : Same k c (scale_down c key)
  scale_down-Same = record {
    count = counts-scale_down k key c;
    queue = queues-scale_down k key c;
    limit =
        other_limits (scale_down c key) (scale_down c key).limits
          (scale_down_cases
            (λ m. get_concurrency_limit (record c { limits = m }) k ≡ get_concurrency_limit c k) c
            key refl (λ l _. unmoved l))
          refl (config-scale_down key c);
  }

module _ (k key : String) (c : Controller) (other : str_eq key k ≡ false) where
  acquire-Same : (t : QueuedTask) (used total : ℕ) → Same k c (acquire c key t used total).0
  acquire-Same t used total =
      let p = probed c key t in
      let ready : Same k c p =
        put_circuit-Same k c key (probe t.enqueued_at (get_circuit c key)).0 in
      acquire_cases (λ r. Same k c r.0) c key t used total (λ _. ready) (λ _. ready)
        (λ _. Same-trans k c p (take_slot p key t).0 ready (take_slot-Same k key p other t))

  report_result-Same : (success : Bool) (now : ℕ) → Same k c (report_result c key success now)
  unfolding report_result
  report_result-Same true now =
      let p = put_circuit c key (note_success (get_circuit c key)) in
      Same-trans k c p (scale_up p key) (put_circuit-Same k c key _) (scale_up-Same k key p other)
  report_result-Same false now =
      let p = put_circuit c key (note_failure now (get_circuit c key)) in
      Same-trans k c p (scale_down p key) (put_circuit-Same k c key _)
        (scale_down-Same k key p other)

-- No call about another key touches the key.
pub step-Same :
    (k : String) (c : Controller) (call : Call)
    → str_eq (key_of call) k ≡ false
    → Same k c (step c call)
unfolding step reset_circuit
step-Same k c (acquires key t used total) other = acquire-Same k key c other t used total
step-Same k c (releases key) other = release-Same k key c other
step-Same k c (times_out key n) other = remove_from_queue-Same k key c other n
step-Same k c (reports key success now) other = report_result-Same k key c other success now
step-Same k c (resets key) other = put_circuit-Same k c key _
step-Same k c (limits_to key l) other = set_limit-Same k key c other l
