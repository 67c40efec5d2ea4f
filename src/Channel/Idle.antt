-- ===== src/Channel/Idle.antt =====
-- src/core/queue/async-queue.ts: no consumer waits while there is an item.
use open_supervisor.Channel.{
  clears, waits, is_closed_error, Bool, rejected, closes, tries, shift, nexts, pushes, clear, close,
  deliver, true, try_next, false, length, ◌∷◌, next, next_from, push, Call, new, step, AsyncQueue,
  run,
}
use open_supervisor.Prelude.{if◌then◌else◌, ◌++◌, [], arith, refl, ap, ◌≡◌, ◌<◌, List, ℕ}

module _ {ℓ} {T : Type ℓ} where
  -- Nobody waits while there is an item or once the queue is closed.
  pub record IsIdle (q : AsyncQueue T) : Type 0 where
    pub none_waits : 0 < length q.queue → length q.resolvers ≡ 0
    pub all_rejected : q.closed ≡ true → length q.resolvers ≡ 0

  either-IsIdle {κ} :
      {R : Type κ}
      → (b : Bool) → (x y : AsyncQueue T × R) → (b ≡ true → IsIdle x.0)
      → (b ≡ false → IsIdle y.0)
      → IsIdle (if b then x else y).0
  either-IsIdle true x y h k = h refl
  either-IsIdle false x y h k = k refl

  push-IsIdle :
      (item : T) (rs : List ℕ) (q : AsyncQueue T)
      → q.resolvers ≡ rs
      → q.closed ≡ false
      → IsIdle q
      → IsIdle (deliver item rs q).0
  push-IsIdle item (r ∷ rs) q e open_still h =
      let k : length q.resolvers ≡ length (r ∷ rs) = ap length e in
      record {
        none_waits = λ n. absurd (omega (arith, h.none_waits n, k));
        all_rejected = λ c. absurd (omega (arith, h.all_rejected c, k));
      }
  push-IsIdle item [] q e open_still h = record {
    none_waits = λ n. ap length e;
    all_rejected = h.all_rejected;
  }

  next-IsIdle :
      (xs : List T) (caller : ℕ) (q : AsyncQueue T)
      → q.queue ≡ xs
      → IsIdle q
      → IsIdle (next_from xs caller q).0
  next-IsIdle (x ∷ xs) caller q e h =
      let k : length q.queue ≡ length (x ∷ xs) = ap length e in
      record { none_waits = λ n. h.none_waits (omega (arith, k)); all_rejected = h.all_rejected }
  next-IsIdle [] caller q e h =
      either-IsIdle q.closed (q, rejected)
        (record q { resolvers = q.resolvers ++ (caller ∷ []) }, waits) (λ shut. h)
        (λ open_still. record {
          none_waits = λ n. absurd (omega (arith, n, ap length e));
          all_rejected = λ c. cc;
        })

  step-IsIdle : (q : AsyncQueue T) (c : Call T) → IsIdle q → IsIdle (step q c)
  unfolding step push next try_next close clear
  step-IsIdle q (pushes item) h =
      either-IsIdle q.closed (q, is_closed_error) (deliver item q.resolvers q) (λ shut. h)
        (λ open_still. push-IsIdle item q.resolvers q refl open_still h)
  step-IsIdle q (nexts caller) h = next-IsIdle q.queue caller q refl h
  step-IsIdle q tries h = record {
    none_waits = λ n. h.none_waits (longer q.queue n);
    all_rejected = h.all_rejected;
  }
    where
      longer : (xs : List T) → 0 < length (shift xs) → 0 < length xs
      longer [] n = n
      longer (x ∷ xs) n = omega arith
  step-IsIdle q closes h = record { none_waits = λ n. refl; all_rejected = λ c. refl }
  step-IsIdle q clears h = record {
    none_waits = λ n. absurd (omega (arith, n));
    all_rejected = h.all_rejected;
  }

  run-IsIdle : (q : AsyncQueue T) (cs : List (Call T)) → IsIdle q → IsIdle (run q cs)
  unfolding run
  run-IsIdle q [] h = h
  run-IsIdle q (c ∷ cs) h = run-IsIdle (step q c) cs (step-IsIdle q c h)

-- After any calls on a new queue no consumer waits while an item is stored, and none waits once the
-- queue is closed.
pub run-new-IsIdle {ℓ} : {T : Type ℓ} → (cs : List (Call T)) → IsIdle (run new cs)
unfolding new
run-new-IsIdle cs = run-IsIdle new cs (record { none_waits = λ n. refl; all_rejected = λ c. refl })
