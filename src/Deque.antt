-- ===== src/Deque.antt =====
-- src/core/queue/work-stealing-deque.ts: a deque over a circular array that grows. The owner pushes
-- and pops at the bottom, thieves take from the top. The methods have no `await`, so each of them
-- runs whole; `bottom` and `top` do not wrap. A cell of the array is `none` for `null`.
use Prim.Native.Nat.{zero}
use open_supervisor.Prelude.{
  ◌+◌, none, ◌*◌, ◌%◌, leb, suc, ◌==◌, set, some, ◌-◌, replicate, get_elem?, if◌then◌else◌, Bool,
  List, Option, ℕ,
}
use open_supervisor.Concurrency.State.{TaskPriority}
pub mod Cells
pub mod Refine
pub mod Client
mod Examples

pub record WorkItem {ℓ} (T : Type ℓ) : Type ℓ where
  pub task : T
  pub priority : TaskPriority
  pub enqueued_at : ℕ

pub record CircularArray {ℓ} (A : Type ℓ) : Type ℓ where
  pub items : List (Option A)
  pub capacity : ℕ

pub record Deque {ℓ} (A : Type ℓ) : Type ℓ where
  pub top : ℕ
  pub bottom : ℕ
  pub array : CircularArray A

module _ {ℓ} {A : Type ℓ} where
  unfoldable pub new_array : ℕ → CircularArray A
  new_array capacity = record { items = replicate capacity none; capacity = capacity }

  abbrev pub cell : Option (Option A) → Option A
  cell none = none
  cell (some c) = c

  unfoldable pub get : CircularArray A → ℕ → Option A
  get a index = cell (get_elem? a.items (index % a.capacity))

  unfoldable pub put : CircularArray A → ℕ → Option A → CircularArray A
  put a index item = record a { items = set a.items (index % a.capacity) item }

  -- The loop of `grow`, for the `n` indices from `i`.
  unfoldable pub copy : CircularArray A → ℕ → ℕ → CircularArray A → CircularArray A
  copy from zero i into = into
  copy from (suc n) i into = copy from n (suc i) (put into i (get from i))

  unfoldable pub grow : CircularArray A → ℕ → ℕ → CircularArray A
  grow a bottom top = copy a (bottom - top) top (new_array (a.capacity * 2))

  unfoldable pub new : ℕ → Deque A
  new capacity = record { top = 0; bottom = 0; array = new_array capacity }

  unfoldable pub push : Deque A → A → Deque A
  push d item =
      let a =
        if leb (d.array.capacity - 1) (d.bottom - d.top)
        then grow d.array d.bottom d.top
        else d.array in
      record d { array = put a d.bottom (some item); bottom = d.bottom + 1 }

  -- `bottom` is lowered first; below `top` the deque is empty and `bottom` is put back to it. At the
  -- last item `top` moves up and is read again; the test for a lost race compares the two reads.
  unfoldable pub pop : Deque A → Deque A × Option A
  pop d =
      if leb d.bottom d.top
      then (record d { bottom = d.top }, none)
      else let b = d.bottom - 1 in
        let item = get d.array b in
        if b - d.top == 0
        then (
          record d { top = d.top + 1; bottom = d.top + 1 },
          if d.top == d.top + 1 - 1 then item else none,
        )
        else (record d { bottom = b }, item)

  unfoldable pub steal : Deque A → Deque A × Option A
  steal d = if leb d.bottom d.top then (d, none) else (
    record d { top = d.top + 1 },
    if d.top == d.top + 1 - 1 then get d.array d.top else none,
  )

  -- `Math.max(0, b - t)`
  unfoldable pub size : Deque A → ℕ
  size d = d.bottom - d.top

  unfoldable pub is_empty : Deque A → Bool
  unfolding size
  is_empty d = size d == 0
