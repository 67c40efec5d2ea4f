-- ===== src/Deque/Client.antt =====
-- src/core/queue/work-stealing-deque.ts: what an owner and thieves see of a deque, against a list.
use open_supervisor.Deque.Refine.{pop-Holds, steal-Holds, pop-empty, new-Holds, push-Holds, Holds}
use open_supervisor.Prelude.{ap, subst, inr, refl, inl, ap₂, ◌∷◌, ◌⊎◌, ◌++◌, [], ◌≡◌, ◌<◌, List, ℕ}
use open_supervisor.Deque.{steal, some, pop, new, none, push, Option, Deque}

-- What a client asks of the deque.
pub data Op {ℓ} (A : Type ℓ) : Type ℓ where
  pushes : A → Op A
  pops steals : Op A

module _ {ℓ} {A : Type ℓ} where
  unfoldable pub step : Deque A → Op A → Deque A × Option A
  step d (pushes x) = (push d x, none)
  step d pops = pop d
  step d steals = steal d

  unfoldable pub run : Deque A → List (Op A) → List (Option A)
  run d [] = []
  run d (op ∷ ops) = let (d', reply) = step d op in reply ∷ run d' ops

  -- The same on a list.
  abbrev pub unsnoc : List A → List A × Option A
  unsnoc [] = ([], none)
  unsnoc (x ∷ []) = ([], some x)
  unsnoc (x ∷ y ∷ xs) = let (front, end) = unsnoc (y ∷ xs) in (x ∷ front, end)

  unfoldable pub list_step : List A → Op A → List A × Option A
  list_step xs (pushes x) = (xs ++ x ∷ [], none)
  list_step xs pops = unsnoc xs
  list_step [] steals = ([], none)
  list_step (x ∷ xs) steals = (xs, some x)

  unfoldable pub list_run : List A → List (Op A) → List (Option A)
  list_run xs [] = []
  list_run xs (op ∷ ops) = let (xs', reply) = list_step xs op in reply ∷ list_run xs' ops

  unsnoc_cases :
      (xs : List A)
      → ((xs ≡ []) × (unsnoc xs ≡ ([], none)))
        ⊎ ((ys : List A) × (y : A) × (xs ≡ ys ++ y ∷ []) × (unsnoc xs ≡ (ys, some y)))
  unsnoc_cases [] = inl (refl, refl)
  unsnoc_cases (x ∷ []) = inr ([], x, refl, refl)
  unsnoc_cases (x ∷ y ∷ xs) = elim (unsnoc_cases (y ∷ xs)) [
    | inl (e, _) ↦ cc
    | inr (ys, z, e, f) ↦
        inr (x ∷ ys, z, ap (◌∷◌ x) e, ap {B = List A × Option A} (λ r. (x ∷ r.0, r.1)) f)
  ]

  step-Holds :
      (d : Deque A) (xs : List A) (op : Op A)
      → Holds d xs
      → ((step d op).1 ≡ (list_step xs op).1) × Holds (step d op).0 (list_step xs op).0
  unfolding step list_step
  step-Holds d xs (pushes x) h = (refl, push-Holds d xs x h)
  step-Holds d [] steals h = let r = pop-empty d h in (r.2, r.3)
  step-Holds d (x ∷ xs) steals h = steal-Holds d x xs h
  step-Holds d xs pops h = elim (unsnoc_cases xs) [
    | inl (e, f) ↦
        let g : Holds d [] = subst (Holds d) e h in let r = pop-empty d g in rw f (r.0, r.1)
    | inr (ys, y, e, f) ↦
        let g : Holds d (ys ++ y ∷ []) = subst (Holds d) e h in rw f (pop-Holds d ys y g)
  ]

  run-Holds :
      (d : Deque A) (xs : List A) (ops : List (Op A)) → Holds d xs → run d ops ≡ list_run xs ops
  unfolding run list_run
  run-Holds d xs [] h = refl
  run-Holds d xs (op ∷ ops) h =
      let (reply, held) = step-Holds d xs op h in
      ap₂ ◌∷◌ reply (run-Holds (step d op).0 (list_step xs op).0 ops held)

  -- A new deque of any capacity but 0 answers any pushes, pops and steals, in any order, as a list
  -- does: pushes at the end, pops from the end, steals from the head, `null` when nothing is left.
  pub run-new :
      (capacity : ℕ) (ops : List (Op A)) → 0 < capacity → run (new capacity) ops ≡ list_run [] ops
  run-new capacity ops h = run-Holds (new capacity) [] ops (new-Holds capacity h)
