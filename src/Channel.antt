-- ===== src/Channel.antt =====
-- src/core/queue/async-queue.ts: AsyncQueue, a queue on which consumers wait. A call of `next` that waits
-- is its number; what its promise becomes is in the result of the call that settles it.
use open_supervisor.Prelude.{
  ◌++◌, some, false, ◌∷◌, shift, true, none, ◌==◌, [], length, Option, Bool, if◌then◌else◌, List, ℕ,
}
pub mod Idle
mod Examples

pub record AsyncQueue {ℓ} (T : Type ℓ) : Type ℓ where
  pub queue : List T
  pub resolvers : List ℕ
  pub closed : Bool

-- `push`: it throws on a closed queue, or resumes the first resolver with the item, or stores it.
pub data Pushed : Type 0 where
  is_closed_error : Pushed
  resumed : ℕ → Pushed
  stored : Pushed

-- `next`: it throws on a closed queue that is empty, or gives an item, or waits.
pub data Next {ℓ} (T : Type ℓ) : Type ℓ where
  rejected : Next T
  gives : T → Next T
  waits : Next T

module _ {ℓ} {T : Type ℓ} where
  unfoldable pub new : AsyncQueue T
  new = record { queue = []; resolvers = []; closed = false }

  abbrev pub deliver : T → List ℕ → AsyncQueue T → AsyncQueue T × Pushed
  deliver item (resolver ∷ rest) q = (record q { resolvers = rest }, resumed resolver)
  deliver item [] q = (record q { queue = q.queue ++ (item ∷ []) }, stored)

  unfoldable pub push : T → AsyncQueue T → AsyncQueue T × Pushed
  push item q = if q.closed then (q, is_closed_error) else deliver item q.resolvers q

  abbrev pub next_from : List T → ℕ → AsyncQueue T → AsyncQueue T × Next T
  next_from (item ∷ rest) caller q = (record q { queue = rest }, gives item)
  next_from [] caller q =
      if q.closed
      then (q, rejected)
      else (record q { resolvers = q.resolvers ++ (caller ∷ []) }, waits)

  unfoldable pub next : ℕ → AsyncQueue T → AsyncQueue T × Next T
  next caller q = next_from q.queue caller q

  abbrev pub first_of : List T → Option T
  first_of [] = none
  first_of (item ∷ rest) = some item

  unfoldable pub try_next : AsyncQueue T → AsyncQueue T × Option T
  try_next q = (record q { queue = shift q.queue }, first_of q.queue)

  unfoldable pub is_empty : AsyncQueue T → Bool
  is_empty q = length q.queue == 0

  unfoldable pub size : AsyncQueue T → ℕ
  size q = length q.queue

  -- `close`, and the calls that it rejects.
  unfoldable pub close : AsyncQueue T → AsyncQueue T × List ℕ
  close q = (record q { closed = true; resolvers = [] }, q.resolvers)

  unfoldable pub is_closed : AsyncQueue T → Bool
  is_closed q = q.closed

  unfoldable pub clear : AsyncQueue T → AsyncQueue T
  clear q = record q { queue = [] }

-- The calls of producers and consumers, and the queue after them.
pub data Call {ℓ} (T : Type ℓ) : Type ℓ where
  pushes : T → Call T
  nexts : ℕ → Call T
  tries : Call T
  closes : Call T
  clears : Call T

module _ {ℓ} {T : Type ℓ} where
  unfoldable pub step : AsyncQueue T → Call T → AsyncQueue T
  step q (pushes item) = (push item q).0
  step q (nexts caller) = (next caller q).0
  step q tries = (try_next q).0
  step q closes = (close q).0
  step q clears = clear q

  unfoldable pub run : AsyncQueue T → List (Call T) → AsyncQueue T
  run q [] = q
  run q (c ∷ cs) = run (step q c) cs
