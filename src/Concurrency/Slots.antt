-- ===== src/Concurrency/Slots.antt =====
-- src/core/agents/concurrency.ts: the slots of one key, with the calls that hold them counted.
use open_supervisor.Concurrency.Scaling.{report_result-Moved}
use open_supervisor.Concurrency.Runs.{step, key_of, Call}
use open_supervisor.Prelude.Map
use open_supervisor.Concurrency.Cases.{
  release_slot_cases, take_slot_cases, acquire_cases, probed, with_queue, with_count,
}
use open_supervisor.Concurrency.Frame.{counts-report_result, step-Same, put_circuit-Same, Same}
use open_supervisor.Concurrency.State.{
  max_concurrency, finite, QueuedTask, Controller, get_concurrency_limit,
}
use open_supervisor.Prelude.{
  inr, inl, ◌-◌, none, Option-cases, false, str_eq, subst, true, arith, suc, ◌∙◌, ◌≡◌, ◌≤◌, List,
  ◌+◌, some, ℕ, Bool, Option, String,
}
use open_supervisor.Concurrency.Control.{
  reset_circuit, without_ticket, queued, granted, report_result, remove_from_queue, release,
  acquire, count_of, refused, Admission,
}

-- A history seen from one key: the controller, and how many granted calls have not released yet.
-- A call enters when `acquire` grants it, or when a release resumes it; a release is made by a
-- holder. `adaptive` says whether results of the key are reported, which moves its limit.
abbrev pub entered : Admission → ℕ → ℕ
entered granted n = n + 1
entered queued n = n
entered (refused _) n = n

abbrev pub left : Option ℕ → ℕ → ℕ
left none n = n
left (some ticket) n = n + 1

pub data Step (k : String) (adaptive : Bool) : Controller → ℕ → Controller → ℕ → Type 0 where
  enters :
      (c : Controller) (n : ℕ) (t : QueuedTask) (used total : ℕ)
      → Step k adaptive c n (acquire c k t used total).0 (entered (acquire c k t used total).1 n)
  leaves :
      (c : Controller) (n : ℕ) → Step k adaptive c (suc n) (release c k).0 (left (release c k).1 n)
  expires : (c : Controller) (n ticket : ℕ) → Step k adaptive c n (remove_from_queue c k ticket) n
  adapts :
      (c : Controller) (n : ℕ) (success : Bool) (now : ℕ)
      → adaptive ≡ true
      → Step k adaptive c n (report_result c k success now) n
  resets : (c : Controller) (n : ℕ) → Step k adaptive c n (reset_circuit c k) n
  elsewhere :
      (c : Controller) (n : ℕ) (call : Call)
      → str_eq (key_of call) k ≡ false
      → Step k adaptive c n (step c call) n

pub data Steps (k : String) (adaptive : Bool) (c : Controller) (n : ℕ)
    : Controller → ℕ → Type 0 where
  here : Steps k adaptive c n c n
  next :
      {d e : Controller} {m l : ℕ}
      → Steps k adaptive c n d m
      → Step k adaptive d m e l
      → Steps k adaptive c n e l

-- The count is the number of holders, and the limit is a number up to the bound.
pub record Bounded (k : String) (bound : ℕ) (c : Controller) (n : ℕ) : Type 0 where
  pub exact : count_of c k ≡ n
  pub slots : count_of c k ≤ bound
  pub limit : ℕ
  pub limited : get_concurrency_limit c k ≡ finite limit
  pub limit_bound : limit ≤ bound

Same-Bounded :
    (k : String) (bound : ℕ) (c d : Controller) (n : ℕ)
    → Same k c d
    → Bounded k bound c n
    → Bounded k bound d n
Same-Bounded k bound c d n s b = record {
  exact = s.count ∙ b.exact;
  slots = omega (arith, s.count, b.slots);
  limit = b.limit;
  limited = s.limit ∙ b.limited;
  limit_bound = b.limit_bound;
}

-- A change of the count or of a queue keeps the limit.
counted-Bounded :
    (k : String) (bound : ℕ) (c : Controller) (n m r : ℕ)
    → m ≡ r
    → m ≤ bound
    → Bounded k bound c n
    → Bounded k bound (with_count c k m) r
unfolding get_concurrency_limit
counted-Bounded k bound c n m r e h b = record {
  exact = Map.get_or-set_self k 0 m c.counts ∙ e;
  slots = omega (arith, Map.get_or-set_self k 0 m c.counts);
  limit = b.limit;
  limited = b.limited;
  limit_bound = b.limit_bound;
}

queued-Bounded :
    (k : String) (bound : ℕ) (c : Controller) (n : ℕ) (q : List QueuedTask)
    → Bounded k bound c n
    → Bounded k bound (with_queue c k q) n
unfolding get_concurrency_limit
queued-Bounded k bound c n q b = record {
  exact = b.exact;
  slots = b.slots;
  limit = b.limit;
  limited = b.limited;
  limit_bound = b.limit_bound;
}

pub same_limit :
    (c : Controller) (k : String) (l m : ℕ)
    → get_concurrency_limit c k ≡ finite l
    → get_concurrency_limit c k ≡ finite m
    → l ≡ m
same_limit c k l m e f = ground arith

enter-Bounded :
    (k : String) (bound : ℕ) (c : Controller) (n : ℕ) (t : QueuedTask) (used total : ℕ)
    → Bounded k bound c n
    → Bounded k bound (acquire c k t used total).0 (entered (acquire c k t used total).1 n)
enter-Bounded k bound c n t used total b =
    acquire_cases (λ r. Bounded k bound r.0 (entered r.1 n)) c k t used total (λ _. ready)
      (λ _. ready)
      (λ _.
        take_slot_cases (λ r. Bounded k bound r.0 (entered r.1 n)) p k t
          (λ e. absurd (ground (arith, e, ready.limited)))
          (λ l e lt.
            counted-Bounded k bound p n (count_of p k + 1) (n + 1) (omega (arith, ready.exact))
              (omega (arith, same_limit p k l ready.limit e ready.limited, ready.limit_bound))
              ready)
          (λ l _ _. queued-Bounded k bound p n _ ready))
  where
    p : Controller
    p = probed c k t

    ready : Bounded k bound p n
    ready = Same-Bounded k bound c p n (put_circuit-Same k c k _) b

leave-Bounded :
    (k : String) (bound : ℕ) (c : Controller) (n : ℕ)
    → Bounded k bound c (suc n)
    → Bounded k bound (release c k).0 (left (release c k).1 n)
leave-Bounded k bound c n b =
    release_slot_cases (λ r. Bounded k bound r.0 (left r.1 n)) c k
      (λ e. absurd (ground (arith, e, b.limited)))
      (λ l t rest _ _. add_one n (queued-Bounded k bound c (suc n) rest b))
      (λ l _ _ _.
        counted-Bounded k bound c (suc n) (count_of c k - 1) n (omega (arith, b.exact))
          (omega (arith, b.slots)) b)
      (λ l _ _ z. absurd (omega (arith, z, b.exact)))
  where
    add_one : {d : Controller} (n : ℕ) → Bounded k bound d (suc n) → Bounded k bound d (n + 1)
    add_one {d} n b = let e : suc n ≡ n + 1 = omega arith in subst (Bounded k bound d) e b

expire-Bounded :
    (k : String) (bound : ℕ) (c : Controller) (n ticket : ℕ)
    → Bounded k bound c n
    → Bounded k bound (remove_from_queue c k ticket) n
unfolding remove_from_queue
expire-Bounded k bound c n ticket b = elim (Option-cases (Map.get k c.queues)) [
  | inl e ↦ rw (e, remove_from_queue) b
  | inr (q, e) ↦ rw (e, remove_from_queue) (queued-Bounded k bound c n (without_ticket ticket q) b)
]

adapt-Bounded :
    (k : String) (bound : ℕ) (c : Controller) (n : ℕ) (success : Bool) (now : ℕ)
    → max_concurrency ≤ bound
    → Bounded k bound c n
    → Bounded k bound (report_result c k success now) n
adapt-Bounded k bound c n success now h b =
    let (m, e, moved) = report_result-Moved c k success now b.limit b.limited in
    record {
      exact = counts-report_result c k success now ∙ b.exact;
      slots = omega (arith, counts-report_result c k success now, b.slots);
      limit = m;
      limited = e;
      limit_bound = ground (arith, moved, b.limit_bound, h);
    }

Step-Bounded :
    (k : String) (bound : ℕ) {adaptive : Bool} {c d : Controller} {n m : ℕ}
    → max_concurrency ≤ bound
    → Step k adaptive c n d m
    → Bounded k bound c n
    → Bounded k bound d m
unfolding reset_circuit
Step-Bounded k bound h (enters c n t used total) b = enter-Bounded k bound c n t used total b
Step-Bounded k bound h (leaves c n) b = leave-Bounded k bound c n b
Step-Bounded k bound h (expires c n ticket) b = expire-Bounded k bound c n ticket b
Step-Bounded k bound h (adapts c n success now _) b = adapt-Bounded k bound c n success now h b
Step-Bounded k bound h (resets c n) b =
    Same-Bounded k bound c (reset_circuit c k) n (put_circuit-Same k c k _) b
Step-Bounded k bound h (elsewhere c n call other) b =
    Same-Bounded k bound c (step c call) n (step-Same k c call other) b

-- Let the limit of a key be a number up to a bound of 50 or more, and its count be the number of calls
-- that hold a slot and up to the bound. Both stay so under any acquires, time-outs, reported results and
-- circuit resets of the key and any calls for other keys, if each release of the key is made by a call that
-- holds a slot and nobody calls setLimit for the key.
pub Steps-Bounded :
    (k : String) (bound : ℕ) {adaptive : Bool} {c : Controller} {n : ℕ} {d : Controller} {m : ℕ}
    → max_concurrency ≤ bound
    → Bounded k bound c n
    → Steps k adaptive c n d m
    → Bounded k bound d m
Steps-Bounded k bound h b here = b
Steps-Bounded k bound h b (next steps last) =
    Step-Bounded k bound h last (Steps-Bounded k bound h b steps)
