-- ===== src/Agents/Pending.antt =====
-- src/core/agents/manager: what the ends of tasks leave of the notifications and the pending tasks.
use open_supervisor.Prelude.Map.{Map}
use open_supervisor.Tasks.Notices.{get_or-put_pending}
use open_supervisor.Tasks.Store.{
  max_notifications_per_parent, put_pending, remove, pushed, untrack_pending, non_empty, TaskStore,
  ParallelTask, get_pending_count,
}
use open_supervisor.Agents.Manager.{
  notify_with, give_back, put_stored, Manager, report, release_slot,
}
use open_supervisor.Prelude.{
  eq_refl, ap, inr, inl, ◌==◌, ltb, none, Bool-cases, some, refl, false, ◌∷◌, length, true, [],
  if◌then◌else◌, Bool, ◌++◌, ◌≡◌, Option, String, List, ℕ,
}
use open_supervisor.Prelude.Map

pub give_back-keeps :
    (result : Option Bool) (now : ℕ) (key : Option String) (m : Manager)
    → ((give_back result now key m).store ≡ m.store)
      × ((give_back result now key m).notices ≡ m.notices)
unfolding release_slot report
give_back-keeps result now none m = (refl, refl)
give_back-keeps none now (some key) m = (refl, refl)
give_back-keeps (some success) now (some key) m = (refl, refl)

pub put_stored-keeps :
    (id : String) (t : ParallelTask) (s : TaskStore)
    → ((put_stored id t s).notifications ≡ s.notifications)
      × ((put_stored id t s).pending_by_parent ≡ s.pending_by_parent)
put_stored-keeps id t s = by_has (Map.has id s.tasks)
  where
    by_has :
        (b : Bool)
        → ((if b then record s { tasks = Map.set id t s.tasks } else s).notifications
            ≡ s.notifications)
          × ((if b then record s { tasks = Map.set id t s.tasks } else s).pending_by_parent
              ≡ s.pending_by_parent)
    by_has true = (refl, refl)
    by_has false = (refl, refl)

non_empty-append : (ts : List ParallelTask) (t : ParallelTask) → non_empty (ts ++ (t ∷ [])) ≡ true
non_empty-append [] t = refl
non_empty-append (x ∷ xs) t = refl

pub non_empty-pushed :
    (t : ParallelTask) (queue : List ParallelTask) → non_empty (pushed t queue) ≡ true
non_empty-pushed t [] = refl
non_empty-pushed t (x ∷ xs) =
    elim (Bool-cases (ltb max_notifications_per_parent (length (x ∷ (xs ++ (t ∷ [])))))) [
      | inl over ↦ rw over (non_empty-append xs t)
      | inr fits ↦ rw fits refl
    ]

pub notify_with-notices :
    (parent : String) (after : Option String) (ts : List ParallelTask) (m : Manager)
    → non_empty ts ≡ true
    → (notify_with parent after ts m).notices
      ≡ record { parent = parent; tasks = ts; all_complete = get_pending_count parent m.store == 0 }
        ∷ m.notices
notify_with-notices parent after [] m h = cc h
notify_with-notices parent after (t ∷ ts) m h = refl

-- The tasks of a parent that are still pending once a task is not.
abbrev pub others_pending : String → String → TaskStore → List String
others_pending parent id s = remove id (Map.get_or parent [] s.pending_by_parent)

pub pending_count-untrack :
    (parent id : String) (s : TaskStore)
    → get_pending_count parent (untrack_pending parent id s) ≡ length (others_pending parent id s)
unfolding get_pending_count untrack_pending Map.get_or
pending_count-untrack parent id s = by_pending (Map.get parent s.pending_by_parent) refl
  where
    by_pending :
        (o : Option (List String))
        → Map.get parent s.pending_by_parent ≡ o
        → length (
            Map.get_or parent []
              (elim o as (λ x. TaskStore) [
                | none ↦ s
                | some tasks ↦ put_pending parent (remove id tasks) s
              ]).pending_by_parent)
          ≡ length (remove id (elim o as (λ x. List String) [ none ↦ [] | some xs ↦ xs ]))
    by_pending none e =
        ap (λ o. length (elim o as (λ x. List String) [ none ↦ [] | some xs ↦ xs ])) e
    by_pending (some tasks) e =
        rw (get_or-put_pending parent parent (remove id tasks) s, eq_refl parent) refl

pub get_pending_count-cong :
    (parent : String) (s r : TaskStore)
    → s.pending_by_parent ≡ r.pending_by_parent
    → get_pending_count parent s ≡ get_pending_count parent r
unfolding get_pending_count
get_pending_count-cong parent s r e =
    ap (λ (m : Map (List String)). length (Map.get_or parent [] m)) e

pub untrack_pending-notifications :
    (parent id : String) (s : TaskStore)
    → (untrack_pending parent id s).notifications ≡ s.notifications
unfolding untrack_pending
untrack_pending-notifications parent id s = by_pending (Map.get parent s.pending_by_parent)
  where
    by_rest : (rest : List String) → (put_pending parent rest s).notifications ≡ s.notifications
    by_rest [] = refl
    by_rest (x ∷ xs) = refl

    by_pending :
        (o : Option (List String))
        → (elim o as (λ x. TaskStore) [
          | none ↦ s
          | some tasks ↦ put_pending parent (remove id tasks) s
        ]).notifications
          ≡ s.notifications
    by_pending none = refl
    by_pending (some tasks) = by_rest (remove id tasks)

pub others_pending-cong :
    (parent id : String) (s r : TaskStore)
    → s.pending_by_parent ≡ r.pending_by_parent
    → others_pending parent id s ≡ others_pending parent id r
others_pending-cong parent id s r e =
    ap (λ (m : Map (List String)). remove id (Map.get_or parent [] m)) e
