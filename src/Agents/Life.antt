-- ===== src/Agents/Life.antt =====
-- src/core/agents/manager: how a task ends. A handler that acts on a task takes it from `objects` by its id.
use open_supervisor.Agents.Manager.{
  min_stability_ms, task_ttl_ms, notify_parent_if_all_complete, schedule_cleanup, key_of, give_back,
  Manager,
}
use open_supervisor.Tasks.Store.{
  queue_notification, untrack_pending, clear_notifications_for_task, is_running, timeout,
  clean_empty_notifications, error, completed, get_all, ParallelTask,
}
use open_supervisor.Prelude.{
  ltb, not, [], ◌&&◌, ◌-◌, str_eq, leb, true, if◌then◌else◌, false, some, Bool, none, ◌∷◌, Option,
  List, String, ℕ,
}
use open_supervisor.Prelude.Map
use open_supervisor.Tasks.Store
use open_supervisor.Agents.Manager

-- The end that completeTask of the poller and the handler of session.idle share, up to the prompt.
abbrev pub complete_object : ℕ → String → Option ParallelTask → Manager → Manager
complete_object now id none m = m
complete_object now id (some t) m =
    let done = record t { status = completed; completed_at = some now; concurrency_key = none } in
    let freed = Manager.put id done (give_back (some true) now (key_of t) m) in
    notify_parent_if_all_complete t.parent_session_id (some id) (record freed {
      store = queue_notification done (untrack_pending t.parent_session_id id freed.store);
    })

unfoldable pub complete_task : ℕ → String → Manager → Manager
complete_task now id m = complete_object now id (Map.get id m.objects) m

-- Whether an idle session can complete its task: what handleSessionIdle asks before it looks for output.
abbrev pub is_stable : ℕ → Option ParallelTask → Bool
is_stable now none = false
is_stable now (some t) = is_running t.status && not (ltb (now - t.started_at) min_stability_ms)

abbrev pub find_session : String → List ParallelTask → Option ParallelTask
find_session session [] = none
find_session session (t ∷ ts) =
    if str_eq t.session_id session then some t else find_session session ts

unfoldable pub find_by_session : String → Manager → Option ParallelTask
find_by_session session m = find_session session (get_all m.store)

abbrev pub delete_object : ℕ → Option ParallelTask → Manager → Manager
delete_object now none m = m
delete_object now (some t) m =
    let ended =
      if is_running t.status then record t { status = error; completed_at = some now } else t in
    let freed =
      Manager.put t.id (record ended { concurrency_key = none })
        (give_back (some false) now (key_of t) m) in
    record freed {
      store =
          (Store.delete t.id (
            clear_notifications_for_task t.id
              (untrack_pending t.parent_session_id t.id freed.store))).0;
    }

unfoldable pub handle_session_deleted : ℕ → String → Manager → Manager
handle_session_deleted now session m = delete_object now (find_by_session session m) m

abbrev pub cancel_stored : ℕ → String → Option ParallelTask → Manager → Manager × Bool
cancel_stored now id none m = (m, false)
cancel_stored now id (some t) m =
    let ended = record t { status = error; completed_at = some now } in
    let freed = give_back none now (key_of t) (Manager.put id ended m) in
    if is_running t.status
    then (
      schedule_cleanup id
          (record freed { store = untrack_pending t.parent_session_id id freed.store }),
      true,
    )
    else (m, false)

unfoldable pub cancel_task : ℕ → String → Manager → Manager × Bool
cancel_task now id m = cancel_stored now id (Store.get id m.store) m

abbrev pub fail_stored : ℕ → String → Option ParallelTask → Manager → Manager
fail_stored now id none m = m
fail_stored now id (some t) m =
    let ended = record t { status = error; completed_at = some now } in
    let freed = give_back (some false) now (key_of t) (Manager.put id ended m) in
    schedule_cleanup id (
      notify_parent_if_all_complete t.parent_session_id none
        (record freed { store = untrack_pending t.parent_session_id id freed.store }))

unfoldable pub handle_task_error : ℕ → String → Manager → Manager
handle_task_error now id m = fail_stored now id (Store.get id m.store) m

abbrev pub expire : ℕ → ParallelTask → Manager → Manager
expire now t m =
    let freed =
      give_back none now (key_of t)
        (Manager.put t.id (record t { status = timeout; completed_at = some now }) m) in
    if is_running t.status
    then record freed { store = untrack_pending t.parent_session_id t.id freed.store }
    else m

abbrev pub prune_each : ℕ → List ParallelTask → Manager → Manager
prune_each now [] m = m
prune_each now (t ∷ ts) m =
    let expired = expire now t m in
    let dropped = record expired { store = (Store.delete t.id expired.store).0 } in
    if leb (now - t.started_at) task_ttl_ms then prune_each now ts m else prune_each now ts dropped

unfoldable pub prune_expired_tasks : ℕ → Manager → Manager
prune_expired_tasks now m =
    let pruned = prune_each now (get_all m.store) m in
    record pruned { store = clean_empty_notifications pruned.store }

-- handleSessionIdle up to the look for output: the task whose session is asked for it.
unfoldable pub session_idle : ℕ → String → Manager → Option ParallelTask
session_idle now session m =
    let found = find_by_session session m in if is_stable now found then found else none

-- The rest of handleSessionIdle, for the task by its id.
unfoldable pub output_checked : ℕ → Bool → String → Manager → Manager
output_checked now has_output id m = if has_output then complete_task now id m else m
