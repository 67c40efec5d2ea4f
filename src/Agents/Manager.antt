-- ===== src/Agents/Manager.antt =====
-- src/core/agents/manager.ts and src/core/agents/manager/task-cleaner.ts: what the parts of the manager share.
-- The clock is the argument `now`, in milliseconds. A task object that a handler still holds after the
-- store has dropped it stands in `objects`; the texts of tasks, toasts and the session pool are left out.
use open_supervisor.Concurrency.Token.{Token}
use open_supervisor.Pools.Strings.{is_truthy}
use open_supervisor.Concurrency.State.{Controller}
use open_supervisor.Concurrency.Control.{report_result}
use open_supervisor.Prelude.Map.{Map}
use open_supervisor.Tasks.Store.{
  clear_notifications, get_pending_count, get_notifications, TaskStore, ParallelTask,
}
use open_supervisor.Prelude.{
  ◌==◌, none, [], if◌then◌else◌, Bool, some, ◌++◌, ◌∷◌, get_elem?, Option, List, String, ℕ,
}
use open_supervisor.Prelude.Map
use open_supervisor.Concurrency.Control
use open_supervisor.Tasks.Store
use Prim.Native.Nat.{suc, zero}

-- A prompt to the parent of tasks: which are complete, and whether all are.
pub record Notice : Type 0 where
  pub parent : String
  pub tasks : List ParallelTask
  pub all_complete : Bool

pub record Manager : Type 0 where
  pub store : TaskStore
  pub objects : Map ParallelTask
  pub controller : Controller
  -- The tokens of executeBackground, by the ids of their tasks.
  pub tokens : Map Token
  -- The tasks that wait for a slot, with their tickets, and the tickets whose wait is over.
  pub waiting : List (ℕ × String)
  pub resolved : List ℕ
  pub made : ℕ
  -- The notices that were sent, the latest one first, and the parents of those that are not answered,
  -- each with the task whose completion goes on then.
  pub notices : List Notice
  pub notifying : List (String × Option String)
  -- The tasks of the cleanup timers, and those reported to onTaskComplete.
  pub cleanups : List String
  pub reported : List String

abbrev pub task_ttl_ms : ℕ
task_ttl_ms = 86400000

abbrev pub min_stability_ms : ℕ
min_stability_ms = 2000

abbrev pub max_depth : ℕ
max_depth = 3

-- A change of a task object, which the store sees if it has it.
abbrev pub put_stored : String → ParallelTask → TaskStore → TaskStore
put_stored id t s = if Map.has id s.tasks then record s { tasks = Map.set id t s.tasks } else s

abbrev pub put : String → ParallelTask → Manager → Manager
put id t m = record m { objects = Map.set id t m.objects; store = put_stored id t m.store }

abbrev pub ticket_list : Option ℕ → List ℕ
ticket_list none = []
ticket_list (some ticket) = ticket ∷ []

-- `concurrency.release`, with the ticket of the call that goes on.
unfoldable pub release_slot : String → Manager → Manager
release_slot key m =
    let r = Control.release m.controller key in
    record m { controller = r.0; resolved = m.resolved ++ ticket_list r.1 }

unfoldable pub report : String → Bool → ℕ → Manager → Manager
report key success now m = record m { controller = report_result m.controller key success now }

-- `if (task.concurrencyKey)`
abbrev pub key_of : ParallelTask → Option String
key_of t = elim t.concurrency_key [
  | none ↦ none
  | some key ↦ if is_truthy key then some key else none
]

-- The slot of the key is released, and the result reported if there is one.
abbrev pub give_back : Option Bool → ℕ → Option String → Manager → Manager
give_back result now none m = m
give_back none now (some key) m = release_slot key m
give_back (some success) now (some key) m = report key success now (release_slot key m)

unfoldable pub schedule_cleanup : String → Manager → Manager
schedule_cleanup id m = record m { cleanups = m.cleanups ++ (id ∷ []) }

-- The rest of a completion, once its parent was notified.
abbrev pub go_on : Option String → Manager → Manager
go_on none m = m
go_on (some id) m =
    let cleaned = schedule_cleanup id m in
    record cleaned { reported = cleaned.reported ++ (id ∷ []) }

abbrev pub notify_with : String → Option String → List ParallelTask → Manager → Manager
notify_with parent after [] m = go_on after m
notify_with parent after (t ∷ ts) m = record m {
  notices =
      record {
        parent = parent;
        tasks = t ∷ ts;
        all_complete = get_pending_count parent m.store == 0;
      }
      ∷ m.notices;
  notifying = m.notifying ++ ((parent, after) ∷ []);
}

-- `notifyParentIfAllComplete` up to its prompt.
unfoldable pub notify_parent_if_all_complete : String → Option String → Manager → Manager
notify_parent_if_all_complete parent after m =
    notify_with parent after (get_notifications parent m.store) m

abbrev pub remove_at {ℓ} : {A : Type ℓ} → ℕ → List A → List A
remove_at i [] = []
remove_at zero (x ∷ xs) = xs
remove_at (suc i) (x ∷ xs) = x ∷ remove_at i xs

abbrev pub notified_with : ℕ → Option (String × Option String) → Manager → Manager
notified_with i none m = m
notified_with i (some (parent, after)) m =
    go_on after
      (record m { notifying = remove_at i m.notifying; store = clear_notifications parent m.store })

-- The prompt at a place of `notifying` is answered or fails.
unfoldable pub notified : ℕ → Manager → Manager
notified i m = notified_with i (get_elem? m.notifying i) m

-- The cleanup timer of a task is over.
unfoldable pub clean_up : String → Manager → Manager
clean_up id m = record m { store = (Store.delete id m.store).0 }
