-- ===== src/Hierarchy/Store.antt =====
-- src/core/task/store.ts and scheduler.ts. A hierarchy belongs to one session; the functions of a session
-- look it up in the map. The clock and the generated ids are arguments.
use open_supervisor.Pools.Strings.{is_truthy}
use open_supervisor.Tasks.Store.{
  timeout, error, failed, cancelled, error, running, cancelled, failed, is_completed, completed,
  pending, is_pending, is_running, TaskStatus,
}
use open_supervisor.Prelude.Map.{Map}
use open_supervisor.Prelude.{
  ◌||◌, filter, not, if◌then◌else◌, ◌++◌, ◌&&◌, none, all, ◌∷◌, true, [], some, false, Bool, Option,
  List, String, ℕ,
}
use open_supervisor.Prelude.Map

pub record TaskNode : Type 0 where
  pub id : String
  pub description : String
  pub level : ℕ
  pub parent : Option String
  pub children : List String
  pub status : TaskStatus
  pub agent : Option String
  pub parallel_group : Option String
  pub depends_on : List String
  pub created_at : ℕ
  pub started_at : Option ℕ
  pub completed_at : Option ℕ
  pub result : Option String

pub record TaskHierarchy : Type 0 where
  pub root_id : String
  pub nodes : Map TaskNode
  pub parallel_groups : Map (List String)

pub record TaskInput : Type 0 where
  pub description : String
  pub level : ℕ
  pub parent_id : Option String
  pub agent : Option String
  pub parallel_group : Option String
  pub depends_on : Option (List String)

abbrev pub Hierarchies : Type 0
Hierarchies = Map TaskHierarchy

-- A text that is given and not empty.
abbrev pub given : Option String → Option String
given none = none
given (some s) = if is_truthy s then some s else none

unfoldable pub create : String → ℕ → String → String → Hierarchies → Hierarchies
create root_id now session root_description m =
    let root : TaskNode = record {
      id = root_id;
      description = root_description;
      level = 0;
      parent = none;
      children = [];
      status = pending;
      agent = none;
      parallel_group = none;
      depends_on = [];
      created_at = now;
      started_at = none;
      completed_at = none;
      result = none;
    } in
    Map.set session
      (record { root_id = root_id; nodes = (root_id, root) ∷ []; parallel_groups = [] }) m

abbrev pub new_node : String → ℕ → TaskInput → TaskNode
new_node id now task = record {
  id = id;
  description = task.description;
  level = task.level;
  parent = task.parent_id;
  children = [];
  status = pending;
  agent = task.agent;
  parallel_group = task.parallel_group;
  depends_on = elim task.depends_on [ none ↦ [] | some ids ↦ ids ];
  created_at = now;
  started_at = none;
  completed_at = none;
  result = none;
}

-- The id is put at the end of the children of its parent.
abbrev pub adopted : String → Option TaskNode → String → Map TaskNode → Map TaskNode
adopted id none parent nodes = nodes
adopted id (some p) parent nodes =
    Map.set parent (record p { children = p.children ++ (id ∷ []) }) nodes

abbrev pub with_child : String → Option String → Map TaskNode → Map TaskNode
with_child id none nodes = nodes
with_child id (some parent) nodes = adopted id (Map.get parent nodes) parent nodes

abbrev pub with_member : String → Option String → Map (List String) → Map (List String)
with_member id none groups = groups
with_member id (some group) groups = Map.set group (Map.get_or group [] groups ++ (id ∷ [])) groups

-- addTask on the hierarchy of its session.
unfoldable pub add_to : String → ℕ → TaskInput → TaskHierarchy → TaskHierarchy
add_to id now task h = record h {
  nodes = with_child id (given task.parent_id) (Map.set id (new_node id now task) h.nodes);
  parallel_groups = with_member id (given task.parallel_group) h.parallel_groups;
}

-- `none` when it throws.
unfoldable pub add_task : String → ℕ → String → TaskInput → Hierarchies → Option Hierarchies
add_task id now session task m = elim (Map.get session m) [
  | none ↦ none
  | some h ↦ some (Map.set session (add_to id now task h) m)
]

abbrev pub is_over : TaskStatus → Bool
is_over completed = true
is_over failed = true
is_over cancelled = true
is_over pending = false
is_over running = false
is_over error = false
is_over timeout = false

abbrev pub first_time : Bool → Option ℕ → ℕ → Option ℕ
first_time here (some at) now = some at
first_time here none now = if here then some now else none

abbrev pub updated : ℕ → TaskStatus → Option String → TaskNode → TaskNode
updated now status result node = record node {
  status = status;
  started_at = first_time (is_running status) node.started_at now;
  completed_at = first_time (is_over status) node.completed_at now;
  result = elim (given result) [ none ↦ node.result | some r ↦ some r ];
}

-- updateStatus on the hierarchy of its session.
unfoldable pub update_in : ℕ → String → TaskStatus → Option String → TaskHierarchy → TaskHierarchy
update_in now id status result h = elim (Map.get id h.nodes) [
  | none ↦ h
  | some node ↦ record h { nodes = Map.set id (updated now status result node) h.nodes }
]

unfoldable pub update_status :
    ℕ → String → String → TaskStatus → Option String → Hierarchies → Hierarchies
update_status now session id status result m = elim (Map.get session m) [
  | none ↦ m
  | some h ↦ Map.set session (update_in now id status result h) m
]

unfoldable pub clear : String → Hierarchies → Hierarchies
clear session m = Map.delete session m

unfoldable pub is_complete : String → Hierarchies → Bool
is_complete session m = elim (Map.get session m) [
  | none ↦ true
  | some h ↦
      all (λ (n : TaskNode). not (is_pending n.status || is_running n.status)) (Map.values h.nodes)
]

-- `dep?.status === COMPLETED`
abbrev pub is_done : Option TaskNode → Bool
is_done none = false
is_done (some n) = is_completed n.status

abbrev pub is_ready_parent : Option TaskNode → Bool
is_ready_parent none = false
is_ready_parent (some n) = is_running n.status || is_completed n.status

abbrev pub deps_complete : TaskHierarchy → TaskNode → Bool
deps_complete h node = all (λ id. is_done (Map.get id h.nodes)) node.depends_on

abbrev pub parent_ready : TaskHierarchy → TaskNode → Bool
parent_ready h node = elim (given node.parent) [
  | none ↦ true
  | some parent ↦ is_ready_parent (Map.get parent h.nodes)
]

-- Whether the loop of getNextTasks takes a node.
unfoldable pub is_executable : TaskHierarchy → TaskNode → Bool
is_executable h node = is_pending node.status && deps_complete h node && parent_ready h node

unfoldable pub get_next_tasks : String → Hierarchies → List TaskNode
get_next_tasks session m = elim (Map.get session m) [
  | none ↦ []
  | some h ↦ filter (is_executable h) (Map.values h.nodes)
]

abbrev pub found_pending : TaskHierarchy → List String → List TaskNode
found_pending h [] = []
found_pending h (id ∷ ids) = elim (Map.get id h.nodes) [
  | none ↦ found_pending h ids
  | some n ↦ if is_pending n.status then n ∷ found_pending h ids else found_pending h ids
]

unfoldable pub get_parallel_batch : String → String → Hierarchies → List TaskNode
get_parallel_batch session group m = elim (Map.get session m) [
  | none ↦ []
  | some h ↦ found_pending h (Map.get_or group [] h.parallel_groups)
]
