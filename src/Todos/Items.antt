-- ===== src/Todos/Items.antt =====
-- src/core/todo/todo-manager.ts: updateItem and addSubTask. In each of their rounds other updates may
-- run between the read of the version and the turn of their own update.
use Prim.Native.Nat.{zero}
use open_supervisor.Todos.Text.{marker_of, insert_sub_task, mark_items, Text}
use open_supervisor.Todos.Files.{
  thrown, success, conflict, conflict, success, update, run, read_with_version, Call, Disk, Io,
}
use open_supervisor.Prelude.{none, true, suc, false, some, Bool, Option, List, String, ℕ}

-- What happens in a round: how the read goes, the updates that run in between, and how the round's own
-- update goes.
pub record Round : Type 0 where
  pub read : Io
  pub others : List Call
  pub io : ℕ → Io

-- The loop with `left` rounds left, at the round `n`, for the updater of the method; `none` when an
-- update throws.
unfoldable pub edit_from : (ℕ → Round) → (Text → Text) → String → ℕ → ℕ → Disk → Disk × Option Bool
edit_from rounds updater author zero n d = (d, some false)
edit_from rounds updater author (suc left) n d =
    let current = read_with_version (rounds n).read d in
    let ready = (run (rounds n).others d).0 in
    let r = update (rounds n).io current.version.version updater author ready in
    let rest = edit_from rounds updater author left (suc n) r.0 in
    elim r.1 [ success v ↦ (r.0, some true) | conflict v ↦ rest | thrown ↦ (r.0, none) ]

abbrev pub max_rounds : ℕ
max_rounds = 5

unfoldable pub update_item : (ℕ → Round) → Text → String → String → Disk → Disk × Option Bool
update_item rounds search status author d =
    edit_from rounds (mark_items search (marker_of status)) author max_rounds 0 d

unfoldable pub add_sub_task : (ℕ → Round) → Text → Text → String → Disk → Disk × Option Bool
add_sub_task rounds parent text author d =
    edit_from rounds (insert_sub_task parent text) author max_rounds 0 d
