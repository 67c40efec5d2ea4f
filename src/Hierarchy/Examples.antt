-- ===== src/Hierarchy/Examples.antt =====
-- Tests of src/core/task at concrete inputs.
use open_supervisor.Prelude.Map
use open_supervisor.Hierarchy.Progress.{tally_all, get_progress}
use open_supervisor.Hierarchy.Store.{
  TaskNode, new_node, TaskHierarchy, is_complete, get_next_tasks, TaskInput, is_executable,
}
use open_supervisor.Prelude.{refl, true, ◌≡◌, none, ◌∷◌, [], some, String, List}
use open_supervisor.Tasks.Store.{TaskStatus, timeout, pending, running, completed}

abbrev input : List String → TaskInput
input deps = record {
  description = "work";
  level = 1;
  parent_id = some "root";
  agent = none;
  parallel_group = some "g";
  depends_on = some deps;
}

abbrev node_of : String → TaskStatus → List String → TaskNode
node_of id status deps = record (new_node id 10 (input deps)) { status = status }

-- `b` waits for `a`.
abbrev plan : TaskHierarchy
plan = record {
  root_id = "root";
  nodes =
      ("root", record (node_of "root" running []) { parent = none })
      ∷ ("a", node_of "a" completed [])
      ∷ ("b", node_of "b" pending ("a" ∷ []))
      ∷ [];
  parallel_groups = [];
}

next_test : get_next_tasks "s" (("s", plan) ∷ []) ≡ node_of "b" pending ("a" ∷ []) ∷ []
unfolding get_next_tasks is_executable Map.get
next_test = refl

-- One task is completed and one has timed out.
abbrev over_plan : TaskHierarchy
over_plan = record plan {
  nodes = ("a", node_of "a" completed []) ∷ ("b", node_of "b" timeout []) ∷ [];
}

over_there : Map.get "s" (("s", over_plan) ∷ []) ≡ some over_plan
unfolding Map.get
over_there = refl

over_complete : is_complete "s" (("s", over_plan) ∷ []) ≡ true
unfolding is_complete Map.get
over_complete = refl

half_test : (get_progress "s" (("s", over_plan) ∷ [])).percentage ≡ 50
unfolding get_progress tally_all Map.get
half_test = refl
