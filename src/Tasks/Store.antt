-- ===== src/Tasks/Store.antt =====
-- src/core/agents/task-store.ts. A task has the fields that the store reads and
-- those that decide how its slot is given back. The texts that `set` interns
-- stay the same texts, so interning does not show here. `gc` waits for the archive between its two loops,
-- so it is two functions, `gc_collect` and `gc_remove`. The clock is the argument `now`, in milliseconds.
use open_supervisor.Prelude.Map.{Map}
use open_supervisor.Prelude.Map
use open_supervisor.Prelude.{
  any, ◌&&◌, some, ◌+◌, drop, ◌||◌, str_eq, Option, false, ltb, filter, none, true, if◌then◌else◌,
  not, ◌++◌, length, ◌∷◌, String, Bool, List, [], ◌-◌, ℕ,
}

pub data TaskStatus : Type 0 where
  pending : TaskStatus
  running : TaskStatus
  completed : TaskStatus
  failed : TaskStatus
  error : TaskStatus
  timeout : TaskStatus
  cancelled : TaskStatus

pub record ParallelTask : Type 0 where
  pub id : String
  pub session_id : String
  pub parent_session_id : String
  pub agent : String
  pub status : TaskStatus
  pub started_at : ℕ
  pub completed_at : Option ℕ
  pub concurrency_key : Option String
  pub depth : ℕ

pub record TaskStore : Type 0 where
  pub tasks : Map ParallelTask
  pub pending_by_parent : Map (List String)
  pub notifications : Map (List ParallelTask)
  pub archived_count : ℕ

abbrev pub max_tasks_in_memory : ℕ
max_tasks_in_memory = 1000

abbrev pub max_notifications_per_parent : ℕ
max_notifications_per_parent = 100

abbrev pub archive_age_ms : ℕ
archive_age_ms = 1800000

abbrev pub error_cleanup_age_ms : ℕ
error_cleanup_age_ms = 600000

-- The tests of a status against `TASK_STATUS`.
abbrev pub is_running : TaskStatus → Bool
is_running s = elim s [ running ↦ true | _ ↦ false ]

abbrev pub is_pending : TaskStatus → Bool
is_pending s = elim s [ pending ↦ true | _ ↦ false ]

abbrev pub is_completed : TaskStatus → Bool
is_completed s = elim s [ completed ↦ true | _ ↦ false ]

abbrev pub is_broken : TaskStatus → Bool
is_broken s = elim s [ error ↦ true | cancelled ↦ true | _ ↦ false ]

unfoldable pub new : TaskStore
new = record { tasks = []; pending_by_parent = []; notifications = []; archived_count = 0 }

-- `now - (completedAt ?? 0)`
abbrev pub age : ℕ → ParallelTask → ℕ
age now task = now - elim task.completed_at [ none ↦ 0 | some t ↦ t ]

abbrev pub to_archive : ℕ → ParallelTask → Bool
to_archive now task =
    not (is_running task.status) && (ltb archive_age_ms (age now task) && is_completed task.status)

-- Whether the first loop of `gc` lists the task for removal.
abbrev pub to_remove : ℕ → ParallelTask → Bool
to_remove now task =
    not (is_running task.status)
    && (to_archive now task || (ltb error_cleanup_age_ms (age now task) && is_broken task.status))

-- The ids to remove, and the tasks to archive.
unfoldable pub gc_collect : ℕ → Map ParallelTask → List String × List ParallelTask
gc_collect now [] = ([], [])
gc_collect now ((id, task) ∷ m) =
    let (ids, archived) = gc_collect now m in
    (
      if to_remove now task then id ∷ ids else ids,
      if to_archive now task then task ∷ archived else archived,
    )

-- `archiveTasks` counts the tasks once they are written; a failed write is ignored.
unfoldable pub archive_tasks : Bool → List ParallelTask → TaskStore → TaskStore
archive_tasks written archived s =
    if written then record s { archived_count = s.archived_count + length archived } else s

-- The second loop of `gc`.
unfoldable pub gc_remove : List String → Map ParallelTask → Map ParallelTask
gc_remove [] m = m
gc_remove (id ∷ ids) m = gc_remove ids (Map.delete id m)

-- `gc` with nothing in between its two loops.
unfoldable pub gc : ℕ → Bool → TaskStore → TaskStore
gc now written s =
    let (ids, archived) = gc_collect now s.tasks in
    let s2 = archive_tasks written archived s in record s2 { tasks = gc_remove ids s2.tasks }

-- `set`, and whether it starts `gc`.
unfoldable pub set : String → ParallelTask → TaskStore → TaskStore × Bool
set id task s =
    let tasks = Map.set id task s.tasks in
    (record s { tasks = tasks }, ltb max_tasks_in_memory (length tasks))

unfoldable pub get : String → TaskStore → Option ParallelTask
get id s = Map.get id s.tasks

unfoldable pub get_all : TaskStore → List ParallelTask
get_all s = Map.values s.tasks

unfoldable pub get_running : TaskStore → List ParallelTask
get_running s = filter (λ t. is_running t.status || is_pending t.status) (get_all s)

unfoldable pub get_by_parent : String → TaskStore → List ParallelTask
get_by_parent parent s = filter (λ t. str_eq t.parent_session_id parent) (get_all s)

unfoldable pub delete : String → TaskStore → TaskStore × Bool
delete id s = (record s { tasks = Map.delete id s.tasks }, Map.has id s.tasks)

unfoldable pub clear : TaskStore → TaskStore
clear s = record s { tasks = []; pending_by_parent = []; notifications = [] }

unfoldable pub force_cleanup : TaskStore → TaskStore
force_cleanup s = record s { tasks = Map.keep (λ t. is_running t.status) s.tasks }

-- `Set.add` and `Set.delete`.
abbrev pub add : String → List String → List String
add x xs = if any (λ y. str_eq y x) xs then xs else xs ++ (x ∷ [])

abbrev pub remove : String → List String → List String
remove x xs = filter (λ y. not (str_eq y x)) xs

unfoldable pub track_pending : String → String → TaskStore → TaskStore
track_pending parent task s = record s {
  pending_by_parent =
      Map.set parent (add task (Map.get_or parent [] s.pending_by_parent)) s.pending_by_parent;
}

abbrev pub put_pending : String → List String → TaskStore → TaskStore
put_pending parent [] s = record s { pending_by_parent = Map.delete parent s.pending_by_parent }
put_pending parent (x ∷ xs) s = record s {
  pending_by_parent = Map.set parent (x ∷ xs) s.pending_by_parent;
}

unfoldable pub untrack_pending : String → String → TaskStore → TaskStore
untrack_pending parent task s = elim (Map.get parent s.pending_by_parent) [
  | none ↦ s
  | some tasks ↦ put_pending parent (remove task tasks) s
]

unfoldable pub get_pending_count : String → TaskStore → ℕ
get_pending_count parent s = length (Map.get_or parent [] s.pending_by_parent)

unfoldable pub has_pending : String → TaskStore → Bool
unfolding get_pending_count
has_pending parent s = ltb 0 (get_pending_count parent s)

-- The queue with the task; the oldest one goes if there are too many.
abbrev pub pushed : ParallelTask → List ParallelTask → List ParallelTask
pushed task queue =
    let longer : List ParallelTask = queue ++ (task ∷ []) in
    if ltb max_notifications_per_parent (length longer) then drop 1 longer else longer

unfoldable pub queue_notification : ParallelTask → TaskStore → TaskStore
queue_notification task s = record s {
  notifications =
      Map.set task.parent_session_id
        (pushed task (Map.get_or task.parent_session_id [] s.notifications)) s.notifications;
}

unfoldable pub get_notifications : String → TaskStore → List ParallelTask
get_notifications parent s = Map.get_or parent [] s.notifications

unfoldable pub clear_notifications : String → TaskStore → TaskStore
clear_notifications parent s = record s { notifications = Map.delete parent s.notifications }

abbrev pub non_empty : List ParallelTask → Bool
non_empty [] = false
non_empty (t ∷ ts) = true

unfoldable pub clean_empty_notifications : TaskStore → TaskStore
clean_empty_notifications s = record s { notifications = Map.keep non_empty s.notifications }

abbrev pub other_tasks : String → List ParallelTask → List ParallelTask
other_tasks task_id tasks = filter (λ t. not (str_eq t.id task_id)) tasks

-- The loop over the entries: an entry that becomes empty is deleted.
abbrev pub without_task : String → Map (List ParallelTask) → Map (List ParallelTask)
without_task task_id [] = []
without_task task_id ((session, tasks) ∷ m) =
    if non_empty (other_tasks task_id tasks)
    then (session, other_tasks task_id tasks) ∷ without_task task_id m
    else without_task task_id m

unfoldable pub clear_notifications_for_task : String → TaskStore → TaskStore
clear_notifications_for_task task_id s = record s {
  notifications = without_task task_id s.notifications;
}

pub record TaskStoreStats : Type 0 where
  pub tasks_in_memory : ℕ
  pub running_tasks : ℕ
  pub archived_tasks : ℕ
  pub notification_queues : ℕ
  pub pending_parents : ℕ

unfoldable pub get_stats : TaskStore → TaskStoreStats
unfolding get_running get_all
get_stats s = record {
  tasks_in_memory = length s.tasks;
  running_tasks = length (get_running s);
  archived_tasks = s.archived_count;
  notification_queues = length s.notifications;
  pending_parents = length s.pending_by_parent;
}
