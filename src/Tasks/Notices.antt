-- ===== src/Tasks/Notices.antt =====
-- src/core/agents/task-store.ts: the tasks that are pending for a parent, and its notifications.
use open_supervisor.Prelude.Map.{Map}
use open_supervisor.Tasks.Store.{
  add, track_pending, get_pending_count, pushed, remove, max_notifications_per_parent, put_pending,
  TaskStore, untrack_pending, queue_notification, ParallelTask,
}
use open_supervisor.Prelude.Map
use open_supervisor.Prelude.{
  Bool-cases, sym, ◌∙◌, ap, eq_iff, refl, inr, none, inl, eq_refl, length-append, ◌∷◌, some,
  Option-cases, ◌++◌, arith, Option, if◌then◌else◌, false, ◌≡◌, ◌≤◌, str_eq, [], any, length, List,
  String,
}

pushed_bounded :
    (task : ParallelTask) (queue : List ParallelTask)
    → length queue ≤ max_notifications_per_parent
    → length (pushed task queue) ≤ max_notifications_per_parent
pushed_bounded task [] h = omega arith
pushed_bounded task (x ∷ queue) h = ground (arith, length-append queue (task ∷ []))

-- No parent ever has more than a hundred notifications.
pub queue_notification_bounded :
    (task : ParallelTask) (s : TaskStore)
    → Map.Holds (λ q. length q ≤ max_notifications_per_parent) s.notifications
    → Map.Holds
        (λ q. length q ≤ max_notifications_per_parent)
        (queue_notification task s).notifications
unfolding queue_notification Map.get_or
queue_notification_bounded task s h =
    Map.Holds-set _ task.parent_session_id _ s.notifications
      (pushed_bounded task _ (before (Map.get task.parent_session_id s.notifications) (h _))) h
  where
    before :
        (found : Option (List ParallelTask))
        → ((q : List ParallelTask) → found ≡ some q → length q ≤ max_notifications_per_parent)
        → length (elim found [ none ↦ [] | some q ↦ q ]) ≤ max_notifications_per_parent
    before none k = omega arith
    before (some q) k = k q refl

remove-add :
    (x : String) (xs : List String)
    → any (λ y. str_eq y x) xs ≡ false
    → remove x (xs ++ (x ∷ [])) ≡ xs
remove-add x [] h = rw (eq_refl x) refl
remove-add x (y ∷ xs) h = ground (arith, remove-add x xs)

pub get_or-put_pending :
    (parent q : String) (xs : List String) (s : TaskStore)
    → Map.get_or q [] (put_pending parent xs s).pending_by_parent
      ≡ (if str_eq parent q then xs else Map.get_or q [] s.pending_by_parent)
unfolding Map.get_or
get_or-put_pending parent q [] s = ground (arith, Map.get-delete parent q s.pending_by_parent)
get_or-put_pending parent q (x ∷ xs) s =
    ground (arith, Map.get-set parent q (x ∷ xs) s.pending_by_parent)

found :
    (k : String) (xs : List String) (m : Map (List String))
    → Map.get k m ≡ some xs
    → Map.get_or k [] m ≡ xs
unfolding Map.get_or
found k xs m e = rw (e, Map.get_or) refl

untrack_read :
    (parent task q : String) (s : TaskStore)
    → Map.get_or q [] (untrack_pending parent task s).pending_by_parent ≡ (
        if str_eq parent q
        then remove task (Map.get_or parent [] s.pending_by_parent)
        else Map.get_or q [] s.pending_by_parent)
unfolding untrack_pending Map.get_or
untrack_read parent task q s = elim (Option-cases (Map.get parent s.pending_by_parent)) [
  | inl absent ↦ rw (absent, untrack_pending) (ground (arith, absent, eq_iff parent q))
  | inr (xs, here) ↦
      rw (here, untrack_pending)
        (get_or-put_pending parent q (remove task xs) s
          ∙ ap (λ l. if str_eq parent q then remove task l else Map.get_or q [] s.pending_by_parent)
              (sym (found parent xs s.pending_by_parent here)))
]

read_back :
    (parent task q : String) (s : TaskStore)
    → any (λ y. str_eq y task) (Map.get_or parent [] s.pending_by_parent) ≡ false
    → Map.get_or q [] (untrack_pending parent task (track_pending parent task s)).pending_by_parent
      ≡ Map.get_or q [] s.pending_by_parent
unfolding track_pending
read_back parent task q s fresh =
    let pend : Map (List String) = s.pending_by_parent in
    let held : List String = Map.get_or parent [] pend in
    untrack_read parent task q (track_pending parent task s) ∙ elim (Bool-cases (str_eq parent q)) [
      | inl same ↦
          let e : parent ≡ q = ground (arith, eq_iff parent q, same) in
          rw same (
            ap (remove task) (Map.get_or-set_self parent [] (add task held) pend)
            ∙ rw fresh (remove-add task held fresh)
            ∙ ap (λ k. Map.get_or k [] pend) e)
      | inr other ↦ rw other (Map.get_or-set parent q [] (add task held) pend ∙ rw other refl)
    ]

-- `untrackPending` undoes `trackPending` of a task that was not pending: every parent has as many
-- pending tasks as before.
pub untrack-track_pending :
    (parent task q : String) (s : TaskStore)
    → any (λ y. str_eq y task) (Map.get_or parent [] s.pending_by_parent) ≡ false
    → get_pending_count q (untrack_pending parent task (track_pending parent task s))
      ≡ get_pending_count q s
unfolding get_pending_count
untrack-track_pending parent task q s fresh = ap length (read_back parent task q s fresh)
