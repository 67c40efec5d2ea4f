-- ===== src/Tasks/Examples.antt =====
-- The theorems about src/core/agents/task-store.ts at concrete inputs.
use open_supervisor.Tasks.Collection.{forgets, gc_removes_restarted, get-gc, Distinct}
use open_supervisor.Tasks.Store.{
  gc_collect, error, gc_remove, ParallelTask, running, max_notifications_per_parent, TaskStatus, gc,
  TaskStore, completed, new,
}
use open_supervisor.Prelude.Map
use open_supervisor.Prelude.{
  refl, [], none, if◌then◌else◌, Option, ◌≡◌, ◌∷◌, true, some, ◌≤◌, String, length, ℕ,
}

abbrev task_of : String → TaskStatus → Option ℕ → ParallelTask
task_of id status at = record {
  id = id;
  parent_session_id = "p";
  status = status;
  completed_at = at;
  session_id = "";
  agent = "worker";
  started_at = 0;
  concurrency_key = none;
  depth = 1;
}

abbrev store : TaskStore
store = record new {
  tasks =
      ("a", task_of "a" completed (some 1000))
      ∷ ("b", task_of "b" running none)
      ∷ ("c", task_of "c" error (some 1500000))
      ∷ [];
}

store-Distinct : Distinct store.tasks
unfolding Map.get
store-Distinct = (refl, (refl, (refl, tt)))

get-gc_example :
    Map.get "a" (gc 2000000 true store).tasks
    ≡ (if forgets 2000000 (Map.get "a" store.tasks) then none else Map.get "a" store.tasks)
get-gc_example = get-gc 2000000 true "a" store store-Distinct

gc_removes_restarted_example :
    let restarted =
      Map.set "a"
        (record (task_of "a" completed (some 1000)) { status = running; completed_at = none })
        store.tasks in
    (Map.get "a" restarted
      ≡ some (record (task_of "a" completed (some 1000)) { status = running; completed_at = none }))
    × (Map.get "a" (gc_remove (gc_collect 2000000 store.tasks).0 restarted) ≡ none)
unfolding Map.get
gc_removes_restarted_example =
    gc_removes_restarted 2000000 "a" (task_of "a" completed (some 1000)) store.tasks store-Distinct
      refl refl

none_bounded : Map.Holds (λ q. length q ≤ max_notifications_per_parent) new.notifications
unfolding new Map.get
none_bounded k v e = cc
