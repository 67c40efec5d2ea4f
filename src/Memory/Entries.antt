-- ===== src/Memory/Entries.antt =====
-- src/core/memory/memory-manager.ts. An importance, of which only the order counts, is a number of hundredths, and
-- the sizes, which the source takes in quarters of a character, are four times theirs. The id and the
-- time of a new entry are arguments; its content is given trimmed, and its metadata is left out.
use open_supervisor.Todos.Text.{Text}
use open_supervisor.Prelude.Map.{Map}
use open_supervisor.Prelude.{
  ◌&&◌, ◌+◌, ◌==◌, ◌||◌, length, ◌-◌, ltb, ◌∷◌, if◌then◌else◌, Bool, [], String, ◌++◌, ◌*◌, List, ℕ,
}
use open_supervisor.Prelude.Map

pub data MemoryLevel : Type 0 where
  system_level : MemoryLevel
  project_level : MemoryLevel
  mission_level : MemoryLevel
  task_level : MemoryLevel

pub record MemoryEntry : Type 0 where
  pub id : String
  pub level : MemoryLevel
  pub content : Text
  pub timestamp : ℕ
  pub importance : ℕ

pub record MemorySnapshot : Type 0 where
  pub system_entries : List MemoryEntry
  pub project_entries : List MemoryEntry
  pub mission_entries : List MemoryEntry
  pub task_entries : List MemoryEntry

pub record MemoryManager : Type 0 where
  pub memories : Map MemoryLevel
  pub storage : MemorySnapshot

abbrev pub token_budget : MemoryLevel → ℕ
token_budget system_level = 2000
token_budget project_level = 5000
token_budget mission_level = 10000
token_budget task_level = 20000

abbrev pub entries_of : MemoryLevel → MemorySnapshot → List MemoryEntry
entries_of system_level s = s.system_entries
entries_of project_level s = s.project_entries
entries_of mission_level s = s.mission_entries
entries_of task_level s = s.task_entries

abbrev pub put_entries : MemoryLevel → List MemoryEntry → MemorySnapshot → MemorySnapshot
put_entries system_level es s = record s { system_entries = es }
put_entries project_level es s = record s { project_entries = es }
put_entries mission_level es s = record s { mission_entries = es }
put_entries task_level es s = record s { task_entries = es }

-- The comparison of `sort`: the more important one, then the newer one, is before.
abbrev pub is_before : MemoryEntry → MemoryEntry → Bool
is_before a b =
    ltb b.importance a.importance || ((a.importance == b.importance) && ltb b.timestamp a.timestamp)

abbrev pub insert : MemoryEntry → List MemoryEntry → List MemoryEntry
insert e [] = e ∷ []
insert e (x ∷ xs) = let rest = insert e xs in if is_before x e then x ∷ rest else e ∷ x ∷ xs

-- `sort`, which keeps the order of entries that compare equal.
unfoldable pub sort : List MemoryEntry → List MemoryEntry
sort [] = []
sort (e ∷ es) = insert e (sort es)

unfoldable pub size : List MemoryEntry → ℕ
size [] = 0
size (e ∷ es) = length e.content + size es

-- The entries that are left, their size, and those that were popped, in their old order.
pub record Popped : Type 0 where
  pub kept : List MemoryEntry
  pub current_size : ℕ
  pub removed : List MemoryEntry

abbrev pub pop_first : ℕ → MemoryEntry → Popped → Popped
pop_first budget e p = elim p.kept [
  | [] ↦
      if ltb budget p.current_size
      then record {
        kept = [];
        current_size = p.current_size - length e.content;
        removed = e ∷ p.removed;
      }
      else record p { kept = e ∷ [] }
  | x ∷ xs ↦ record p { kept = e ∷ x ∷ xs }
]

-- The loop of `prune`, which pops the last entry while the size is above the budget.
unfoldable pub pop_while : ℕ → ℕ → List MemoryEntry → Popped
pop_while budget current [] = record { kept = []; current_size = current; removed = [] }
pop_while budget current (e ∷ es) = pop_first budget e (pop_while budget current es)

abbrev pub delete_ids : List MemoryEntry → Map MemoryLevel → Map MemoryLevel
delete_ids [] m = m
delete_ids (e ∷ es) m = Map.delete e.id (delete_ids es m)

unfoldable pub prune : MemoryLevel → MemoryManager → MemoryManager
prune level m =
    let es = entries_of level m.storage in
    let p = pop_while (4 * token_budget level) (size es) es in
    record m {
      memories = delete_ids p.removed m.memories;
      storage = put_entries level p.kept m.storage;
    }

-- The entry of `add` has its level.
unfoldable pub add : MemoryEntry → MemoryManager → MemoryManager
add e m = prune e.level (record m {
  memories = Map.set e.id e.level m.memories;
  storage = put_entries e.level (sort (entries_of e.level m.storage ++ (e ∷ []))) m.storage;
})

unfoldable pub clear_task_memory : MemoryManager → MemoryManager
clear_task_memory m = record m {
  memories = delete_ids m.storage.task_entries m.memories;
  storage = put_entries task_level [] m.storage;
}

unfoldable pub export : MemoryManager → MemorySnapshot
export m = m.storage

abbrev pub set_ids : MemoryLevel → List MemoryEntry → Map MemoryLevel → Map MemoryLevel
set_ids level [] m = m
set_ids level (e ∷ es) m = set_ids level es (Map.set e.id level m)

-- `import`, a reserved word here.
unfoldable pub import_snapshot : MemorySnapshot → MemoryManager → MemoryManager
import_snapshot s m = record {
  storage = s;
  memories = set_ids task_level s.task_entries (
      set_ids mission_level s.mission_entries
        (set_ids project_level s.project_entries (set_ids system_level s.system_entries [])));
}
