-- ===== src/Agents/Launch.antt =====
-- src/core/agents/manager/task-launcher.ts and task-resumer.ts: how a task starts. The id of a task, the session
-- that the pool gives it, and whether a prompt succeeds are arguments; the retries of a prompt are
-- steps of their own.
use Control.{queued, granted}
use open_supervisor.Concurrency.Control.{refused, remove_from_queue, Admission}
use open_supervisor.Agents.Life.{handle_task_error, find_by_session}
use open_supervisor.Concurrency.State.{QueuedTask, normal, Controller}
use open_supervisor.Concurrency.Token.{new_token, Token}
use open_supervisor.Agents.Manager.{max_depth, release_slot, Manager}
use open_supervisor.Tasks.Store.{track_pending, pending, running, ParallelTask}
use open_supervisor.Prelude.{
  ◌++◌, true, [], leb, false, any, ◌+◌, ◌==◌, ◌∷◌, if◌then◌else◌, some, String, List, Bool, Option,
  none, ℕ,
}
use open_supervisor.Prelude.Map
use open_supervisor.Concurrency.Control
use open_supervisor.Tasks.Store
use open_supervisor.Agents.Manager

pub record LaunchInput : Type 0 where
  pub agent : String
  pub parent_session_id : String
  pub depth : Option ℕ

abbrev pub depth_of : LaunchInput → ℕ
depth_of input = elim input.depth [ none ↦ 0 | some d ↦ d ]

abbrev pub prepared : ℕ → String → String → LaunchInput → ParallelTask
prepared now id session input = record {
  id = id;
  session_id = session;
  parent_session_id = input.parent_session_id;
  agent = input.agent;
  status = pending;
  started_at = now;
  completed_at = none;
  concurrency_key = some input.agent;
  depth = depth_of input + 1;
}

-- The tasks of a launch: one that is too deep is refused.
unfoldable pub prepare_task : ℕ → String → String → LaunchInput → Manager → Manager × Bool
prepare_task now id session input m =
    let t = prepared now id session input in
    if leb max_depth (depth_of input) then (m, false) else (
      record m {
        objects = Map.set id t m.objects;
        store = track_pending input.parent_session_id id (Store.set id t m.store).0;
      },
      true,
    )

abbrev pub run_object : ℕ → String → Option ParallelTask → Manager → Manager
run_object now id none m = m
run_object now id (some t) m =
    let going = record t { status = running; started_at = now } in
    record m { objects = Map.set id going m.objects; store = (Store.set id going m.store).0 }

-- A round of the loop of executeBackground up to its prompt.
unfoldable pub run_round : ℕ → String → Manager → Manager
run_round now id m = run_object now id (Map.get id m.objects) m

-- The token is there and the loop starts.
unfoldable pub start_running : ℕ → String → String → Manager → Manager
start_running now agent id m =
    run_round now id (record m { tokens = Map.set id (new_token agent) m.tokens })

abbrev pub admitted : ℕ → ParallelTask → Controller × Admission → Manager → Manager
admitted now t (c, granted) m =
    start_running now t.agent t.id (record m { controller = c; made = m.made + 1 })
admitted now t (c, queued) m = record m {
  controller = c;
  waiting = m.waiting ++ ((m.made, t.id) ∷ []);
  made = m.made + 1;
}
admitted now t (c, refused r) m =
    handle_task_error now t.id (record m { controller = c; made = m.made + 1 })

abbrev pub execute_object : ℕ → ℕ → ℕ → Option ParallelTask → Manager → Manager
execute_object now heap_used heap_total none m = m
execute_object now heap_used heap_total (some t) m =
    let call : QueuedTask = record { ticket = m.made; priority = normal; enqueued_at = now } in
    admitted now t (Control.acquire m.controller t.agent call heap_used heap_total) m

-- `executeBackground` up to its first await, and further if it gets a slot at once.
unfoldable pub execute_background : ℕ → ℕ → ℕ → String → Manager → Manager
execute_background now heap_used heap_total id m =
    execute_object now heap_used heap_total (Map.get id m.objects) m

abbrev pub without : ℕ → List ℕ → List ℕ
without ticket [] = []
without ticket (x ∷ xs) = if x == ticket then xs else x ∷ without ticket xs

abbrev pub task_of : ℕ → List (ℕ × String) → Option String
task_of ticket [] = none
task_of ticket ((x, id) ∷ rest) = if x == ticket then some id else task_of ticket rest

abbrev pub without_call : ℕ → List (ℕ × String) → List (ℕ × String)
without_call ticket [] = []
without_call ticket (c ∷ rest) = if c.0 == ticket then rest else c ∷ without_call ticket rest

abbrev pub agent_of : Option ParallelTask → String
agent_of none = ""
agent_of (some t) = t.agent

abbrev pub slot_given_to : ℕ → ℕ → Option String → Manager → Manager
slot_given_to now ticket none m = m
slot_given_to now ticket (some id) m =
    start_running now (agent_of (Map.get id m.objects)) id
      (record m { waiting = without_call ticket m.waiting; resolved = without ticket m.resolved })

-- A call whose wait is over goes on with its slot.
unfoldable pub slot_given : ℕ → ℕ → Manager → Manager
slot_given now ticket m =
    if any (λ x. x == ticket) m.resolved
    then slot_given_to now ticket (task_of ticket m.waiting) m
    else m

abbrev pub wait_over_for : ℕ → ℕ → Option String → Manager → Manager
wait_over_for now ticket none m = m
wait_over_for now ticket (some id) m = handle_task_error now id (record m {
  controller = remove_from_queue m.controller (agent_of (Map.get id m.objects)) ticket;
  waiting = without_call ticket m.waiting;
})

-- The timer of a waiting call is over, unless its slot came first.
unfoldable pub wait_over : ℕ → ℕ → Manager → Manager
wait_over now ticket m =
    if any (λ x. x == ticket) m.resolved
    then m
    else wait_over_for now ticket (task_of ticket m.waiting) m

abbrev pub give_up : String → Token → Manager → Manager
give_up id token m =
    let freed = release_slot token.key m in
    if token.released then m else record freed {
      tokens = Map.set id (record token { released = true; timer = false }) m.tokens;
    }

abbrev pub release_with : String → Option Token → Manager → Manager
release_with id none m = m
release_with id (some token) m = give_up id token m

-- `token.release()` in executeBackground; the token's timer does the same.
unfoldable pub release_held : String → Manager → Manager
release_held id m = release_with id (Map.get id m.tokens) m

-- The prompt of a task ends the loop of executeBackground: it succeeds, or fails for good.
unfoldable pub prompt_ended : ℕ → Bool → String → Manager → Manager
prompt_ended now succeeded id m =
    if succeeded then release_held id m else handle_task_error now id (release_held id m)

abbrev pub resumed : ℕ → String → ParallelTask → Manager → Manager
resumed now parent t m =
    let restarted =
      Manager.put t.id
        (record t {
          status = running;
          completed_at = none;
          parent_session_id = parent;
          started_at = now;
        })
        m in
    record restarted { store = track_pending parent t.id restarted.store }

-- `resume` up to its prompt, and whether the session has a task.
unfoldable pub resume : ℕ → String → String → Manager → Manager × Bool
resume now session parent m = elim (find_by_session session m) [
  | none ↦ (m, false)
  | some t ↦ (resumed now parent t m, true)
]
