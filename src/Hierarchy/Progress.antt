-- ===== src/Hierarchy/Progress.antt =====
-- src/core/task/store.ts: getProgress and what it counts.
use Prim.Native.Nat.{zero}
use open_supervisor.Hierarchy.Store.{TaskHierarchy, is_complete, Hierarchies, TaskNode}
use open_supervisor.Tasks.Store.{is_running, is_pending, TaskStatus}
use open_supervisor.Prelude.{
  ◌∙◌, ap, sym, subst, Option, inr, inl, false, Bool-cases, arith, refl, ◌||◌, filter, true, some,
  [], length, none, ◌/◌, not, all, ◌+◌, ◌∷◌, ◌*◌, Bool, ◌≡◌, String, suc, List, ℕ,
}
use open_supervisor.Prelude.Map

pub record TaskProgress : Type 0 where
  pub total : ℕ
  pub pending : ℕ
  pub running : ℕ
  pub completed : ℕ
  pub failed : ℕ
  pub percentage : ℕ

-- The switch on the status of a node.
abbrev pub tally : TaskStatus → TaskProgress → TaskProgress
tally open_supervisor.Tasks.Store.pending p = record p { pending = p.pending + 1 }
tally open_supervisor.Tasks.Store.running p = record p { running = p.running + 1 }
tally open_supervisor.Tasks.Store.completed p = record p { completed = p.completed + 1 }
tally open_supervisor.Tasks.Store.failed p = record p { failed = p.failed + 1 }
tally open_supervisor.Tasks.Store.cancelled p = record p { failed = p.failed + 1 }
tally open_supervisor.Tasks.Store.error p = p
tally open_supervisor.Tasks.Store.timeout p = p

unfoldable pub tally_all : List TaskNode → TaskProgress → TaskProgress
tally_all [] p = p
tally_all (n ∷ ns) p = tally_all ns (tally n.status p)

abbrev pub no_progress : TaskProgress
no_progress = record {
  total = 0;
  pending = 0;
  running = 0;
  completed = 0;
  failed = 0;
  percentage = 0;
}

-- `Math.round((done / total) * 100)`, or 0 when there is nothing.
abbrev pub percentage_of : ℕ → ℕ → ℕ
percentage_of done zero = 0
percentage_of done (suc n) = (200 * done + suc n) / (2 * suc n)

unfoldable pub get_progress : String → Hierarchies → TaskProgress
get_progress session m = elim (Map.get session m) [
  | none ↦ no_progress
  | some h ↦
      let p = tally_all (Map.values h.nodes) no_progress in
      let total = length (Map.values h.nodes) in
      record p { total = total; percentage = percentage_of (p.completed + p.failed) total }
]

abbrev pub is_uncounted : TaskStatus → Bool
is_uncounted open_supervisor.Tasks.Store.pending = false
is_uncounted open_supervisor.Tasks.Store.running = false
is_uncounted open_supervisor.Tasks.Store.completed = false
is_uncounted open_supervisor.Tasks.Store.failed = false
is_uncounted open_supervisor.Tasks.Store.cancelled = false
is_uncounted open_supervisor.Tasks.Store.error = true
is_uncounted open_supervisor.Tasks.Store.timeout = true

abbrev pub uncounted : List TaskNode → ℕ
uncounted ns = length (filter (λ (n : TaskNode). is_uncounted n.status) ns)

abbrev is_closed : TaskNode → Bool
is_closed n = not (is_pending n.status || is_running n.status)

-- What a tally of nodes that are over adds.
record Tallied (ns : List TaskNode) (p q : TaskProgress) : Type 0 where
  pending : q.pending ≡ p.pending
  running : q.running ≡ p.running
  over : q.completed + q.failed + uncounted ns ≡ p.completed + p.failed + length ns

Tallied-more :
    (s : TaskStatus) (n : TaskNode) (ns : List TaskNode) (p q : TaskProgress)
    → n.status ≡ s
    → not (is_pending s || is_running s) ≡ true
    → Tallied ns (tally s p) q
    → Tallied (n ∷ ns) p q
Tallied-more open_supervisor.Tasks.Store.pending n ns p q e h t = cc h
Tallied-more open_supervisor.Tasks.Store.running n ns p q e h t = cc h
Tallied-more open_supervisor.Tasks.Store.completed n ns p q e h t = record {
  pending = t.pending;
  running = t.running;
  over = rw e (omega (arith, t.over));
}
Tallied-more open_supervisor.Tasks.Store.failed n ns p q e h t = record {
  pending = t.pending;
  running = t.running;
  over = rw e (omega (arith, t.over));
}
Tallied-more open_supervisor.Tasks.Store.cancelled n ns p q e h t = record {
  pending = t.pending;
  running = t.running;
  over = rw e (omega (arith, t.over));
}
Tallied-more open_supervisor.Tasks.Store.error n ns p q e h t = record {
  pending = t.pending;
  running = t.running;
  over = rw e (omega (arith, t.over));
}
Tallied-more open_supervisor.Tasks.Store.timeout n ns p q e h t = record {
  pending = t.pending;
  running = t.running;
  over = rw e (omega (arith, t.over));
}

tally_all-Tallied :
    (ns : List TaskNode) (p : TaskProgress)
    → all is_closed ns ≡ true
    → Tallied ns p (tally_all ns p)
unfolding tally_all
tally_all-Tallied [] p h = record { pending = refl; running = refl; over = refl }
tally_all-Tallied (n ∷ ns) p h = elim (Bool-cases (is_closed n)) [
  | inl closed ↦
      Tallied-more n.status n ns p (tally_all ns (tally n.status p)) refl closed
        (tally_all-Tallied ns (tally n.status p) (rw closed at h))
  | inr open_node ↦ cc (rw open_node at h)
]

-- When isComplete holds of a session with a hierarchy, getProgress counts no task as pending or running,
-- and the completed and failed ones are all tasks but those with the status error or timeout.
pub get_progress-is_complete :
    (session : String) (m : Hierarchies) (h : TaskHierarchy)
    → Map.get session m ≡ some h
    → is_complete session m ≡ true
    → let p = get_progress session m in
      (p.pending ≡ 0)
      × (p.running ≡ 0)
      × (p.total ≡ length (Map.values h.nodes))
      × (p.completed + p.failed + uncounted (Map.values h.nodes) ≡ p.total)
unfolding get_progress is_complete
get_progress-is_complete session m h e c =
    subst
      (λ o.
        let p = progress_in o in
        (p.pending ≡ 0)
        × (p.running ≡ 0)
        × (p.total ≡ length (Map.values h.nodes))
        × (p.completed + p.failed + uncounted (Map.values h.nodes) ≡ p.total))
      (sym e) (t.pending, t.running, refl, omega (arith, t.over))
  where
    complete_in : Option TaskHierarchy → Bool
    complete_in o = elim o [ none ↦ true | some k ↦ all is_closed (Map.values k.nodes) ]

    t : Tallied (Map.values h.nodes) no_progress (tally_all (Map.values h.nodes) no_progress)
    t = tally_all-Tallied (Map.values h.nodes) no_progress (ap complete_in (sym e) ∙ c)

    progress_in : Option TaskHierarchy → TaskProgress
    progress_in o = elim o [
      | none ↦ no_progress
      | some k ↦
          let p = tally_all (Map.values k.nodes) no_progress in
          let total = length (Map.values k.nodes) in
          record p { total = total; percentage = percentage_of (p.completed + p.failed) total }
    ]
