-- ===== src/Memory/Examples.antt =====
-- The theorem about src/core/memory/memory-manager.ts at a concrete input, and tests.
use open_supervisor.Recovery.Regex.{units}
use open_supervisor.Memory.Budget.{add-BestEntries, BestEntries}
use open_supervisor.Memory.Entries.{
  pop_while, size, prune, task_level, sort, MemoryEntry, add, clear_task_memory, MemoryManager,
  export,
}
use open_supervisor.Prelude.{refl, ◌≡◌, map, ◌∷◌, ◌++◌, [], String, ℕ}
use open_supervisor.Prelude.Map

abbrev entry : String → String → ℕ → ℕ → MemoryEntry
entry id content timestamp importance = record {
  id = id;
  level = task_level;
  content = units content;
  timestamp = timestamp;
  importance = importance;
}

abbrev empty : MemoryManager
empty = record {
  memories = [];
  storage = record {
    system_entries = [];
    project_entries = [];
    mission_entries = [];
    task_entries = [];
  };
}

abbrev three : MemoryManager
three = add (entry "c" "ccc" 3 50) (add (entry "b" "bb" 2 90) (add (entry "a" "a" 1 50) empty))

order_test : map (λ e. e.id) (export three).task_entries ≡ "b" ∷ "c" ∷ "a" ∷ []
unfolding export add prune sort size pop_while Map.get
order_test = refl

-- Of sizes 2, 3 and 1 the budget of 5 leaves the first two.
pop_while_test : map (λ e. e.id) (pop_while 5 6 (export three).task_entries).kept ≡ "b" ∷ "c" ∷ []
unfolding export add prune sort size pop_while
pop_while_test = refl

-- A first entry that is larger than the budget leaves nothing.
oversized_test : (pop_while 1 6 (export three).task_entries).kept ≡ []
unfolding export add prune sort size pop_while
oversized_test = refl

clear_test : (clear_task_memory three).memories ≡ []
unfolding clear_task_memory add prune sort size pop_while Map.set Map.delete
clear_test = refl

add-BestEntries_example :
    BestEntries 80000
      (three.storage.task_entries ++ (entry "d" "d" 4 90 ∷ []))
      (add (entry "d" "d" 4 90) three).storage.task_entries
add-BestEntries_example = add-BestEntries (entry "d" "d" 4 90) three
