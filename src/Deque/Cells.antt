-- ===== src/Deque/Cells.antt =====
-- The cells of the circular array of src/core/queue/work-stealing-deque.ts.
use Prim.Native.Nat.{zero}
use open_supervisor.Deque.{cell, none, suc, Option, new_array, CircularArray, get, copy, put}
use open_supervisor.Prelude.{
  ℕ_discrete, get_elem?-set_ne, ap, ◌≢◌, arith, get_elem?-set_self, ◌∙◌, length-set,
  length-replicate, ◌+◌, length, refl, ◌%◌, ◌<◌, ◌≤◌, ◌≡◌, ℕ,
}

-- Two indices less than the capacity apart are different cells.
pub mod_ne : (a b c : ℕ) → a < b → b < a + c → b % c ≢ a % c
mod_ne a b c h k e = grind arith

module _ {ℓ} {A : Type ℓ} where
  -- The array is as long as its capacity, which is not 0.
  pub record IsSized (a : CircularArray A) : Type 0 where
    pub positive : 0 < a.capacity
    pub sized : length a.items ≡ a.capacity

  pub new_array-IsSized : (n : ℕ) → 0 < n → IsSized (new_array n)
  unfolding new_array
  new_array-IsSized n h = record { positive = h; sized = length-replicate n none }

  pub put-IsSized : (a : CircularArray A) (i : ℕ) (x : Option A) → IsSized a → IsSized (put a i x)
  unfolding put
  put-IsSized a i x s = record {
    positive = s.positive;
    sized = length-set a.items (i % a.capacity) x ∙ s.sized;
  }

  pub get-put_self :
      (a : CircularArray A) (i : ℕ) (x : Option A) → IsSized a → get (put a i x) i ≡ x
  unfolding get put
  get-put_self a i x s =
      rw (get_elem?-set_self a.items (i % a.capacity) x (omega (arith, s.sized, s.positive))) refl

  pub get-put_ne :
      (a : CircularArray A) (i j : ℕ) (x : Option A)
      → i % a.capacity ≢ j % a.capacity
      → get (put a i x) j ≡ get a j
  unfolding get put
  get-put_ne a i j x h = ap cell (get_elem?-set_ne a.items (i % a.capacity) (j % a.capacity) x h)

  pub capacity-put :
      (a : CircularArray A) (i : ℕ) (x : Option A) → (put a i x).capacity ≡ a.capacity
  unfolding put
  capacity-put a i x = refl

  pub copy-IsSized :
      (from : CircularArray A) (n i : ℕ) (into : CircularArray A)
      → IsSized into
      → IsSized (copy from n i into)
  unfolding copy
  copy-IsSized from zero i into s = s
  copy-IsSized from (suc n) i into s =
      copy-IsSized from n (suc i) (put into i (get from i)) (put-IsSized into i _ s)

  pub capacity-copy :
      (from : CircularArray A) (n i : ℕ) (into : CircularArray A)
      → (copy from n i into).capacity ≡ into.capacity
  unfolding copy
  capacity-copy from zero i into = refl
  capacity-copy from (suc n) i into =
      capacity-copy from n (suc i) (put into i (get from i)) ∙ capacity-put into i _

  -- Copying the cells from `i` on leaves the cell of an index just before them.
  copy_keeps :
      (from : CircularArray A) (n i j : ℕ) (into : CircularArray A)
      → j < i
      → i + n ≤ j + into.capacity
      → get (copy from n i into) j ≡ get into j
  unfolding copy
  copy_keeps from zero i j into h k = refl
  copy_keeps from (suc n) i j into h k =
      copy_keeps from n (suc i) j (put into i (get from i)) (omega arith)
        (omega (arith, capacity-put into i (get from i)))
      ∙ get-put_ne into i j (get from i) (mod_ne j i into.capacity h (omega arith))

  pub get-copy :
      (from : CircularArray A) (n i j : ℕ) (into : CircularArray A)
      → IsSized into
      → n ≤ into.capacity
      → i ≤ j
      → j < i + n
      → get (copy from n i into) j ≡ get from j
  unfolding copy
  get-copy from zero i j into s h l r = absurd (omega arith)
  get-copy from (suc n) i j into s h l r = elim (ℕ_discrete i j) [
    | yes e ↦
        copy_keeps from n (suc i) j (put into i (get from i)) (omega arith)
          (omega (arith, capacity-put into i (get from i)))
        ∙ rw (← e) (get-put_self into i (get from i) s)
    | no ne ↦
        get-copy from n (suc i) j (put into i (get from i)) (put-IsSized into i _ s)
          (omega (arith, capacity-put into i (get from i))) (omega arith) (omega arith)
  ]
