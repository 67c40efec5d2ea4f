-- ===== src/Agents/Examples.antt =====
-- The theorems about the parallel tasks at concrete inputs, and tests.
use open_supervisor.Agents.Notified.{handle_task_error-notices}
use open_supervisor.Agents.Slots.{complete_task-prompt_ended, complete_task-complete_task}
use open_supervisor.Concurrency.Token.{new_token}
use open_supervisor.Concurrency.Control.{
  get_active_count, scale_up, note_success, report_result, hand_over, take_slot, count_of,
}
use open_supervisor.Agents.Life.{handle_task_error, complete_task}
use open_supervisor.Agents.Launch.{
  release_held, slot_given, run_round, prompt_ended, start_running, execute_background, prepared,
  prepare_task, LaunchInput,
}
use open_supervisor.Agents.Manager.{notify_parent_if_all_complete, report, release_slot, Manager}
use open_supervisor.Tasks.Store.{
  is_running, get_all, queue_notification, untrack_pending, track_pending, get_pending_count,
  get_notifications, ParallelTask,
}
use open_supervisor.Concurrency.State.{
  is_under_resource_pressure, probe, put_circuit, get_circuit, is_circuit_open, configured_limit,
  ConcurrencyConfig, get_concurrency_limit,
}
use open_supervisor.Prelude.{filter, length, true, refl, none, false, ◌≡◌, ◌∷◌, [], some}
use open_supervisor.Prelude.Map
use open_supervisor.Concurrency.State
use open_supervisor.Concurrency.Control
use open_supervisor.Tasks.Store

abbrev config : ConcurrencyConfig
config = record {
  default_concurrency = some 2;
  agent_concurrency = none;
  provider_concurrency = none;
  model_concurrency = none;
}

abbrev empty : Manager
empty = record {
  store = Store.new;
  objects = [];
  controller = State.new config;
  tokens = [];
  waiting = [];
  resolved = [];
  made = 0;
  notices = [];
  notifying = [];
  cleanups = [];
  reported = [];
}

abbrev input : LaunchInput
input = record { agent = "worker"; parent_session_id = "p"; depth = some 1 }

-- Three tasks of a key with two slots.
abbrev launched : Manager
launched =
    let one = (prepare_task 10 "a" "s" input empty).0 in
    let two = (prepare_task 10 "b" "t" input one).0 in
    let three = (prepare_task 10 "c" "u" input two).0 in
    execute_background 30 1 2 "c"
      (execute_background 20 1 2 "b" (execute_background 20 1 2 "a" three))

launched_test :
    (get_active_count launched.controller "worker" ≡ 2)
    × (launched.waiting ≡ (2, "c") ∷ [])
    × (get_pending_count "p" launched.store ≡ 3)
unfolding prepare_task execute_background start_running run_round slot_given complete_task
    prompt_ended release_held release_slot report new_token notify_parent_if_all_complete
    Control.acquire is_circuit_open get_circuit put_circuit probe is_under_resource_pressure
    take_slot get_concurrency_limit configured_limit Control.release hand_over report_result
    note_success scale_up get_active_count track_pending untrack_pending queue_notification
    get_notifications get_pending_count get_all Store.set Map.get Map.get_or Map.set Map.has
    Map.delete State.new Store.new
launched_test = (refl, refl, refl)

-- The two slots of one task let the third one run and leave a free slot, though two tasks run.
finished_test :
    let m = slot_given 50 2 (complete_task 45 "a" (prompt_ended 40 true "a" launched)) in
    (get_active_count m.controller "worker" ≡ 1)
    × (length (filter (λ t. is_running t.status) (get_all m.store)) ≡ 2)
unfolding prepare_task execute_background start_running run_round slot_given complete_task
    prompt_ended release_held release_slot report new_token notify_parent_if_all_complete
    Control.acquire is_circuit_open get_circuit put_circuit probe is_under_resource_pressure
    take_slot get_concurrency_limit configured_limit Control.release hand_over report_result
    note_success scale_up get_active_count track_pending untrack_pending queue_notification
    get_notifications get_pending_count get_all Store.set Map.get Map.get_or Map.set Map.has
    Map.delete State.new Store.new
finished_test = (refl, refl)

too_deep_test : (prepare_task 10 "a" "s" (record input { depth = some 3 }) empty).1 ≡ false
unfolding prepare_task
too_deep_test = refl

abbrev task : ParallelTask
task = prepared 10 "a" "s" input

abbrev other : ParallelTask
other = prepared 10 "b" "t" input

abbrev two_running : Manager
two_running = record empty {
  store = record Store.new {
    tasks = ("a", task) ∷ ("b", other) ∷ [];
    pending_by_parent = ("p", "a" ∷ "b" ∷ []) ∷ [];
  };
  objects = ("a", task) ∷ ("b", other) ∷ [];
  controller = record (State.new config) { counts = ("worker", 2) ∷ [] };
  tokens = ("a", new_token "worker") ∷ ("b", new_token "worker") ∷ [];
}

handle_task_error-notices_example :
    let after = handle_task_error 50 "a" two_running in
    (after.notices ≡ []) × (get_pending_count "p" after.store ≡ 1)
unfolding get_notifications Map.get Map.get_or State.new Store.new
handle_task_error-notices_example = handle_task_error-notices 50 "a" task two_running refl refl

complete_task-complete_task_example :
    let once = complete_task 50 "a" two_running in
    (once.controller
      ≡ report_result (Control.release two_running.controller "worker").0 "worker" true 50)
    × ((complete_task 60 "a" once).controller ≡ once.controller)
unfolding Map.get State.new Store.new
complete_task-complete_task_example =
    complete_task-complete_task 50 60 "a" "worker" task two_running refl refl refl

complete_task-prompt_ended_example :
    count_of (complete_task 60 "a" (prompt_ended 50 true "a" two_running)).controller "worker" ≡ 0
unfolding Map.get Map.get_or get_concurrency_limit configured_limit State.new Store.new
complete_task-prompt_ended_example =
    complete_task-prompt_ended 50 60 0 "a" "worker" task two_running refl refl refl refl
      (record { limit = 2; limited = refl; nobody = refl; count = refl })
