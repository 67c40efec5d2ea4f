-- ===== src/Agents/Notified.antt =====
-- src/core/agents/manager: which ends of tasks the parent is told of.
use open_supervisor.Agents.Pending.{
  others_pending-cong, pending_count-untrack, untrack_pending-notifications, put_stored-keeps,
  give_back-keeps, others_pending,
}
use open_supervisor.Prelude.Map.{Map}
use open_supervisor.Agents.Life.{fail_stored, handle_task_error}
use open_supervisor.Tasks.Store.{
  error, get_notifications, completed, max_notifications_per_parent, put_pending, remove,
  untrack_pending, TaskStore, ParallelTask, get_pending_count,
}
use open_supervisor.Agents.Manager.{
  key_of, schedule_cleanup, notify_parent_if_all_complete, notify_with, give_back, put_stored,
  Manager, report, release_slot,
}
use open_supervisor.Prelude.{◌∙◌, ap, none, some, refl, false, length, [], ◌≡◌, String, List, ℕ}
use open_supervisor.Prelude.Map
use open_supervisor.Tasks.Store
use open_supervisor.Agents.Manager

-- The task object after its completion.
abbrev pub finished : ℕ → ParallelTask → ParallelTask
finished now t = record t { status = completed; completed_at = some now; concurrency_key = none }

notify_with-empty :
    (parent : String) (ts : List ParallelTask) (m : Manager)
    → ts ≡ []
    → notify_with parent none ts m ≡ m
notify_with-empty parent ts m e = rw e refl

-- When handleTaskError ends a task whose parent has no notification queued, it sends no notice, though the
-- tasks that are then pending for the parent are only the others, which may be none.
pub handle_task_error-notices :
    (now : ℕ) (id : String) (t : ParallelTask) (m : Manager)
    → Map.get id m.store.tasks ≡ some t
    → get_notifications t.parent_session_id m.store ≡ []
    → let after = handle_task_error now id m in
      (after.notices ≡ m.notices)
      × (get_pending_count t.parent_session_id after.store
          ≡ length (others_pending t.parent_session_id id m.store))
unfolding handle_task_error Store.get notify_parent_if_all_complete get_notifications
    schedule_cleanup
handle_task_error-notices now id t m e none_left =
    let p = t.parent_session_id in
    let ended = record t { status = error; completed_at = some now } in
    let marked = Manager.put id ended m in
    let kept = give_back-keeps (some false) now (key_of t) marked in
    let freed = give_back (some false) now (key_of t) marked in
    let parts = put_stored-keeps id ended m.store in
    let untracked = untrack_pending p id freed.store in
    let left = record freed { store = untracked } in
    let notes : untracked.notifications ≡ m.store.notifications =
      untrack_pending-notifications p id freed.store
      ∙ ap (λ (s : TaskStore). s.notifications) kept.0
      ∙ parts.0 in
    let quiet : get_notifications p untracked ≡ [] =
      ap (λ (n : Map (List ParallelTask)). Map.get_or p [] n) notes ∙ none_left in
    let same : handle_task_error now id m ≡ schedule_cleanup id left =
      ap (λ o. fail_stored now id o m) e
      ∙ ap (schedule_cleanup id) (notify_with-empty p (get_notifications p untracked) left quiet) in
    (
      ap (λ (w : Manager). w.notices) same ∙ kept.1,
      ap (λ (w : Manager). get_pending_count p w.store) same
          ∙ pending_count-untrack p id freed.store
          ∙ ap length (
              others_pending-cong p id freed.store m.store
                (ap (λ (s : TaskStore). s.pending_by_parent) kept.0 ∙ parts.1)),
    )
