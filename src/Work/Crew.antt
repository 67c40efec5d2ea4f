-- ===== src/Work/Crew.antt =====
-- src/core/queue/work-pool.ts: workPoolWithResults. Between two awaits a worker runs whole, so a run is
-- a sequence of events: a free worker takes the next piece of work, or a call of `fn` returns or throws.
-- `pop` takes the end of the array, which is the head of `pending`.
use Prim.Native.Nat.{zero}
use open_supervisor.Prelude.{
  false, replicate, length, ◌+◌, min, none, true, get_elem?, set, suc, [], Bool, reverse, ◌∷◌, ◌-◌,
  ltb, some, Option, if◌then◌else◌, List, ℕ,
}

pub record Crew {ℓ κ} (A : Type ℓ) (R : Type κ) : Type (ℓ ⊔ κ) where
  pub pending : List (ℕ × A)
  pub running : List (ℕ × A)
  -- How many workers are about to call `pop`.
  pub free : ℕ
  pub results : List (Option R)
  -- Whether a call of `fn` has thrown, so that the caller's promise is rejected.
  pub rejected : Bool

pub data Event : Type 0 where
  takes : Event
  returns : ℕ → Event
  throws : ℕ → Event

module _ {ℓ} {A : Type ℓ} where
  abbrev pub with_index : ℕ → List A → List (ℕ × A)
  with_index i [] = []
  with_index i (item ∷ items) = (i, item) ∷ with_index (suc i) items

  abbrev pub remove_at : ℕ → List A → List A
  remove_at i [] = []
  remove_at zero (x ∷ xs) = xs
  remove_at (suc i) (x ∷ xs) = x ∷ remove_at i xs

module _ {ℓ κ} {A : Type ℓ} {R : Type κ} where
  unfoldable pub start : ℕ → List A → Crew A R
  start concurrency items = record {
    pending = reverse (with_index 0 items);
    running = [];
    free = min concurrency (length items);
    results = replicate (length items) none;
    rejected = false;
  }

  -- A free worker calls `pop`, and ends when nothing is left.
  abbrev pub take_next : List (ℕ × A) → Crew A R → Crew A R
  take_next [] c = record c { free = c.free - 1 }
  take_next (work ∷ rest) c = record c {
    pending = rest;
    running = work ∷ c.running;
    free = c.free - 1;
  }

  -- The work at a place of `running` is done; the worker is free again.
  abbrev pub done : (A → ℕ → R) → ℕ → Option (ℕ × A) → Crew A R → Crew A R
  done fn i none c = c
  done fn i (some (index, item)) c = record c {
    running = remove_at i c.running;
    results = set c.results index (some (fn item index));
    free = c.free + 1;
  }

  -- The work has thrown; its worker is gone.
  abbrev pub lost : ℕ → Option (ℕ × A) → Crew A R → Crew A R
  lost i none c = c
  lost i (some work) c = record c { running = remove_at i c.running; rejected = true }

  unfoldable pub step : (A → ℕ → R) → Crew A R → Event → Crew A R
  step fn c takes = if ltb 0 c.free then take_next c.pending c else c
  step fn c (returns i) = done fn i (get_elem? c.running i) c
  step fn c (throws i) = lost i (get_elem? c.running i) c

  unfoldable pub run : (A → ℕ → R) → Crew A R → List Event → Crew A R
  run fn c [] = c
  run fn c (e ∷ es) = run fn (step fn c e) es
