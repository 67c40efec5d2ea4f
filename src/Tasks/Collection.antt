-- ===== src/Tasks/Collection.antt =====
-- src/core/agents/task-store.ts: what the garbage collection removes.
use open_supervisor.Tasks.Store.{
  timeout, pending, failed, cancelled, error, completed, failed, pending, cancelled, error,
  completed, TaskStatus, running, to_remove, TaskStore, archive_tasks, ParallelTask, gc_collect, gc,
  gc_remove,
}
use open_supervisor.Prelude.Map.{Map}
use open_supervisor.Prelude.Map
use open_supervisor.Prelude.{
  ltb, ◌-◌, sym, ap, refl, eq_iff, arith, true, inr, [], inl, ◌∙◌, str_eq, some, Bool-cases,
  if◌then◌else◌, false, any, none, Bool, ◌≡◌, ◌∷◌, List, String, Option, ℕ,
}

-- No id stands twice.
abbrev pub Distinct : Map ParallelTask → Type 0
Distinct [] = Unit
Distinct ((id, task) ∷ m) = (Map.get id m ≡ none) × Distinct m

abbrev pub listed : String → List String → Bool
listed id ids = any (λ i. str_eq i id) ids

-- What the first loop says of the task found under an id.
abbrev pub removes : ℕ → Option ParallelTask → Bool
removes now none = false
removes now (some task) = to_remove now task

collect_listed :
    (now : ℕ) (id : String) (m : Map ParallelTask)
    → Distinct m
    → listed id (gc_collect now m).0 ≡ removes now (Map.get id m)
unfolding gc_collect Map.get
collect_listed now id [] d = refl
collect_listed now id ((j, task) ∷ m) d = elim (Bool-cases (str_eq j id)) [
  | inl same ↦
      let e : j ≡ id = ground (arith, eq_iff j id, same) in
      let none_left : listed id (gc_collect now m).0 ≡ false =
        collect_listed now id m d.1 ∙ ap (removes now) (ap (λ k. Map.get k m) (sym e) ∙ d.0) in
      elim (Bool-cases (to_remove now task)) [
        | inl goes ↦ rw (same, goes) (rw same refl)
        | inr stays ↦ rw (same, stays) none_left
      ]
  | inr other ↦ elim (Bool-cases (to_remove now task)) [
    | inl goes ↦ rw (other, goes) (rw other (collect_listed now id m d.1))
    | inr stays ↦ rw (other, stays) (collect_listed now id m d.1)
  ]
]

get-gc_remove :
    (id : String) (ids : List String) (m : Map ParallelTask)
    → Map.get id (gc_remove ids m) ≡ (if listed id ids then none else Map.get id m)
unfolding gc_remove
get-gc_remove id [] m = refl
get-gc_remove id (i ∷ ids) m =
    get-gc_remove id ids (Map.delete i m) ∙ ground (arith, Map.get-delete i id m)

-- Whether a task is over for long enough, by the milliseconds since its completion.
abbrev pub is_past : ℕ → TaskStatus → Bool
is_past ms completed = ltb 1800000 ms
is_past ms error = ltb 600000 ms
is_past ms cancelled = ltb 600000 ms
is_past ms pending = false
is_past ms running = false
is_past ms failed = false
is_past ms timeout = false

-- The time since a completion, or since 1970 if there was none.
abbrev pub since : ℕ → Option ℕ → ℕ
since now none = now
since now (some at) = now - at

abbrev pub forgets : ℕ → Option ParallelTask → Bool
forgets now none = false
forgets now (some task) = is_past (since now task.completed_at) task.status

to_remove-is_past :
    (now : ℕ) (task : ParallelTask)
    → to_remove now task ≡ is_past (since now task.completed_at) task.status
to_remove-is_past now task = by_status task.status task.completed_at
  where
    by_status :
        (s : TaskStatus) (at : Option ℕ)
        → to_remove now (record task { status = s; completed_at = at }) ≡ is_past (since now at) s
    by_status completed none = ground arith
    by_status completed (some t) = ground arith
    by_status error none = ground arith
    by_status error (some t) = ground arith
    by_status cancelled none = ground arith
    by_status cancelled (some t) = ground arith
    by_status pending none = ground arith
    by_status pending (some t) = ground arith
    by_status running none = ground arith
    by_status running (some t) = ground arith
    by_status failed none = ground arith
    by_status failed (some t) = ground arith
    by_status timeout none = ground arith
    by_status timeout (some t) = ground arith

removes-forgets : (now : ℕ) (o : Option ParallelTask) → removes now o ≡ forgets now o
removes-forgets now none = refl
removes-forgets now (some task) = to_remove-is_past now task

-- With nothing in between its loops, `gc` removes exactly the tasks that are completed for more
-- than thirty minutes, or have the status error or cancelled and ended more than ten minutes ago; a
-- task without a time of completion counts as ended in 1970. Every other task stays as it is.
pub get-gc :
    (now : ℕ) (written : Bool) (id : String) (s : TaskStore)
    → Distinct s.tasks
    → Map.get id (gc now written s).tasks
      ≡ (if forgets now (Map.get id s.tasks) then none else Map.get id s.tasks)
unfolding gc archive_tasks
get-gc now true id s d =
    rw (← removes-forgets now (Map.get id s.tasks), ← collect_listed now id s.tasks d)
      (get-gc_remove id (gc_collect now s.tasks).0 s.tasks)
get-gc now false id s d =
    rw (← removes-forgets now (Map.get id s.tasks), ← collect_listed now id s.tasks d)
      (get-gc_remove id (gc_collect now s.tasks).0 s.tasks)

-- A task that was listed by the first loop of `gc` is removed by the second one although it was started
-- again in between, while the archive was written.
pub gc_removes_restarted :
    (now : ℕ) (id : String) (task : ParallelTask) (m : Map ParallelTask)
    → Distinct m
    → Map.get id m ≡ some task
    → to_remove now task ≡ true
    → let restarted = Map.set id (record task { status = running; completed_at = none }) m in
      (Map.get id restarted ≡ some (record task { status = running; completed_at = none }))
      × (Map.get id (gc_remove (gc_collect now m).0 restarted) ≡ none)
gc_removes_restarted now id task m d e stale =
    let on : listed id (gc_collect now m).0 ≡ true =
      collect_listed now id m d ∙ ap (removes now) e ∙ stale in
    (Map.get-set_self id _ m, get-gc_remove id (gc_collect now m).0 _ ∙ rw on refl)
