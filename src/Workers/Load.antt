-- ===== src/Workers/Load.antt =====
-- src/core/queue/worker-pool.ts: an item goes to a worker with the least work.
use Prim.Native.Nat.{zero}
use open_supervisor.Deque.{WorkItem}
use open_supervisor.Workers.{WorkerPool, get_least_loaded_worker, least_from}
use open_supervisor.Prelude.{
  ◌∙◌, sym, ltb→lt, ltb, ap, Bool-cases, refl, [], inr, suc, ◌∷◌, ◌+◌, inl, ◌⊎◌, arith, ◌≡◌, none,
  get_elem?, ◌≤◌, some, List, ℕ, Option,
}
use open_supervisor.Deque

abbrev IsBelow : Option (ℕ × ℕ) → ℕ → Type 0
IsBelow none load = Unit
IsBelow (some (i, l)) load = load ≤ l

module _ {ℓ} {T : Type ℓ} where
  -- The worker that the loop over the workers from `k` on picks.
  record IsLeast (k : ℕ) (best : Option (ℕ × ℕ)) (ds : List (Deque.Deque (WorkItem T))) (i load : ℕ)
      : Type ℓ where
    below : IsBelow best load
    least : (j : ℕ) (d : Deque.Deque (WorkItem T)) → get_elem? ds j ≡ some d → load ≤ Deque.size d
    found :
        (best ≡ some (i, load))
        ⊎ ((j : ℕ) × (d : Deque.Deque (WorkItem T)) × (i ≡ k + j)
            × (get_elem? ds j ≡ some d)
            × (Deque.size d ≡ load))

  first :
      (d : Deque.Deque (WorkItem T)) (ds : List (Deque.Deque (WorkItem T))) (load : ℕ)
      → load ≤ Deque.size d
      → ((j : ℕ) (c : Deque.Deque (WorkItem T)) → get_elem? ds j ≡ some c → load ≤ Deque.size c)
      → (j : ℕ) (c : Deque.Deque (WorkItem T)) → get_elem? (d ∷ ds) j ≡ some c
      → load ≤ Deque.size c
  first d ds load le rest zero c q =
      let same : d ≡ c = ground (arith, q) in omega (arith, le, ap Deque.size same)
  first d ds load le rest (suc j) c q = rest j c q

  least_from-IsLeast :
      (k : ℕ) (best : Option (ℕ × ℕ)) (ds : List (Deque.Deque (WorkItem T))) (i load : ℕ)
      → least_from k best ds ≡ some (i, load)
      → IsLeast k best ds i load
  unfolding least_from
  least_from-IsLeast k none [] i load e = cc
  least_from-IsLeast k (some (j, l)) [] i load e = record {
    below = ground (arith, e);
    least = λ j d q. cc;
    found = inl e;
  }
  least_from-IsLeast k none (d ∷ ds) i load e =
      let h = least_from-IsLeast (suc k) (some (k, Deque.size d)) ds i load e in
      record {
        below = tt;
        least = first d ds load h.below h.least;
        found = elim h.found [
          | inl same ↦ inr (0, d, ground (arith, same), refl, ground (arith, same))
          | inr (j, c, at, there, size) ↦ inr (suc j, c, omega (arith, at), there, size)
        ];
      }
  least_from-IsLeast k (some (m, l)) (d ∷ ds) i load e = elim (Bool-cases (ltb (Deque.size d) l)) [
    | inl less ↦
        let h = least_from-IsLeast (suc k) (some (k, Deque.size d)) ds i load (rw less at e) in
        record {
          below = omega (arith, h.below, ltb→lt (Deque.size d) l less);
          least = first d ds load h.below h.least;
          found = elim h.found [
            | inl same ↦ inr (0, d, ground (arith, same), refl, ground (arith, same))
            | inr (j, c, at, there, size) ↦ inr (suc j, c, omega (arith, at), there, size)
          ];
        }
    | inr more ↦
        let h = least_from-IsLeast (suc k) (some (m, l)) ds i load (rw more at e) in
        let le : l ≤ Deque.size d = ground (arith, more) in
        record {
          below = h.below;
          least = first d ds load (omega (arith, h.below, le)) h.least;
          found = elim h.found [
            | inl same ↦ inl same
            | inr (j, c, at, there, size) ↦ inr (suc j, c, omega (arith, at), there, size)
          ];
        }
  ]

-- The worker that `getLeastLoadedWorker` picks has the load that it says, and no worker has less.
pub get_least_loaded_worker-le {ℓ} :
    {T : Type ℓ}
    → (p : WorkerPool T) → (i load : ℕ) → get_least_loaded_worker p ≡ some (i, load)
    → ((d : Deque.Deque (WorkItem T)) × (get_elem? p.workers i ≡ some d) × (Deque.size d ≡ load))
      × ((j : ℕ) (d : Deque.Deque (WorkItem T))
          → get_elem? p.workers j ≡ some d
          → load ≤ Deque.size d)
unfolding get_least_loaded_worker
get_least_loaded_worker-le p i load e =
    let h = least_from-IsLeast 0 none p.workers i load e in
    (
      elim h.found [
        | inl q ↦ cc
        | inr (j, d, at, there, size) ↦
            let same : j ≡ i = omega (arith, at) in
            (d, ap (get_elem? p.workers) (sym same) ∙ there, size)
      ],
      h.least,
    )
