-- ===== src/Verify/CompletionLaws.antt =====
-- src/core/loop/verification.ts: when a mission counts as complete.
use open_supervisor.Verify.Result.{checked, verify_checklist, ChecklistVerificationResult}
use open_supervisor.Verify.Sync.{has_real_sync_issues}
use open_supervisor.Verify.Todos.{complete_box, incomplete_box, count_matches}
use open_supervisor.Verify.Completion.{
  after_checklist, decided, issues_in, after_sync, after_todo, Files, VerificationResult,
  verify_mission_completion,
}
use open_supervisor.Todos.Text.{Text}
use open_supervisor.Verify.Checklist.{
  parse_checklist, unreadable, absent, read_checklist, holds, File, ChecklistItem,
}
use open_supervisor.Prelude.{
  length-filter-le, filter, ◌&&◌, ◌==◌, ◌-◌, length, [], if◌then◌else◌, arith, refl, not, ◌≡◌, ◌∷◌,
  false, all, true, ltb, List, Bool, ℕ,
}

all-filter :
    (p : ChecklistItem → Bool) (xs : List ChecklistItem)
    → all p xs ≡ (length xs - length (filter p xs) == 0)
all-filter p [] = refl
all-filter p (x ∷ xs) = ground (arith, all-filter p xs, length-filter-le p xs)

-- Whether every item is completed and there is one.
abbrev pub all_checked : List ChecklistItem → Bool
all_checked [] = false
all_checked (i ∷ items) = all (λ x. x.completed) (i ∷ items)

abbrev pub has_items : List ChecklistItem → Bool
has_items [] = false
has_items (i ∷ items) = true

-- Whether the todos have a box and no empty one.
abbrev pub todos_done : File → Bool
todos_done absent = false
todos_done unreadable = false
todos_done (holds content) =
    (count_matches incomplete_box content == 0) && ltb 0 (count_matches complete_box content)

abbrev pub sync_clean : List ℕ → File → Bool
sync_clean indices absent = true
sync_clean indices unreadable = true
sync_clean indices (holds content) = not (has_real_sync_issues indices content).1

checked-passed : (items : List ChecklistItem) → (checked items).passed ≡ all_checked items
checked-passed [] = refl
checked-passed (i ∷ items) = ground (arith, all-filter (λ x. x.completed) (i ∷ items))

checked-total : (items : List ChecklistItem) → ltb 0 (checked items).total_items ≡ has_items items
checked-total [] = refl
checked-total (i ∷ items) = ground arith

issues_in-empty :
    (content : Text) (real : Bool) (r : VerificationResult)
    → r.sync_issues_empty ≡ true
    → (issues_in content real r).sync_issues_empty ≡ not real
issues_in-empty content true r e = refl
issues_in-empty content false r e = e

issues_in_complete :
    (content : Text) (real : Bool) (r : VerificationResult)
    → ((issues_in content real r).checklist_complete ≡ r.checklist_complete)
      × ((issues_in content real r).todo_complete ≡ r.todo_complete)
issues_in_complete content true r = (refl, refl)
issues_in_complete content false r = (refl, refl)

-- What the third step leaves of the first two, and what it finds.
record Synced (indices : List ℕ) (f : File) (r : VerificationResult) : Type 0 where
  clean : (after_sync indices f r).1.sync_issues_empty ≡ sync_clean indices f
  checklist : (after_sync indices f r).1.checklist_complete ≡ r.checklist_complete
  todo : (after_sync indices f r).1.todo_complete ≡ r.todo_complete

after_sync-Synced :
    (indices : List ℕ) (f : File) (r : VerificationResult)
    → r.sync_issues_empty ≡ true
    → Synced indices f r
after_sync-Synced indices absent r e = record { clean = e; checklist = refl; todo = refl }
after_sync-Synced indices unreadable r e = record { clean = e; checklist = refl; todo = refl }
after_sync-Synced indices (holds content) r e =
    let found = has_real_sync_issues indices content in
    let kept = issues_in_complete content found.1 r in
    record { clean = issues_in-empty content found.1 r e; checklist = kept.0; todo = kept.1 }

record Counted (b : Bool) (f : File) (r : VerificationResult) : Type 0 where
  todo : (after_todo b f r).todo_complete ≡ todos_done f
  checklist : (after_todo b f r).checklist_complete ≡ r.checklist_complete
  sync : (after_todo b f r).sync_issues_empty ≡ r.sync_issues_empty

after_todo-Counted :
    (b : Bool) (f : File) (r : VerificationResult) → r.todo_complete ≡ false → Counted b f r
after_todo-Counted b absent r e = record { todo = e; checklist = refl; sync = refl }
after_todo-Counted b unreadable r e = record { todo = e; checklist = refl; sync = refl }
after_todo-Counted b (holds content) r e = record {
  todo = ground arith;
  checklist = refl;
  sync = refl;
}

both : (x y z b : Bool) → (if b then x && z else y && z) ≡ ((if b then x else y) && z)
both x y z true = refl
both x y z false = refl

-- A mission counts as complete exactly if its sync issues are clean and, when the checklist can be read
-- and has items, all of them are checked, or else the todos can be read and have a checked box and no
-- empty one.
pub verify-passed :
    (to_lower : Text → Text) (files : Files) (indices : List ℕ)
    → (verify_mission_completion to_lower files indices).1.passed ≡ (
        (if has_items (read_checklist to_lower files.checklist)
          then all_checked (read_checklist to_lower files.checklist)
          else todos_done files.todo)
        && sync_clean indices files.sync)
unfolding verify_mission_completion verify_checklist
verify-passed to_lower files indices =
    by_checklist (verify_checklist to_lower files.checklist)
      (read_checklist to_lower files.checklist) (verified files.checklist)
  where
    verified :
        (f : File)
        → ((verify_checklist to_lower f).passed ≡ all_checked (read_checklist to_lower f))
          × (ltb 0 (verify_checklist to_lower f).total_items
              ≡ has_items (read_checklist to_lower f))
    verified absent = (refl, refl)
    verified unreadable = (refl, refl)
    verified (holds content) = (
      checked-passed (parse_checklist to_lower content),
      checked-total (parse_checklist to_lower content),
    )

    by_checklist :
        (c : ChecklistVerificationResult) (items : List ChecklistItem)
        → (c.passed ≡ all_checked items) × (ltb 0 c.total_items ≡ has_items items)
        → (decided
            (ltb 0 c.total_items)
            (after_sync indices files.sync
              (after_todo (ltb 0 c.total_items) files.todo (after_checklist c))).1).passed
          ≡ ((if has_items items then all_checked items else todos_done files.todo)
              && sync_clean indices files.sync)
    by_checklist c items e =
        let b = ltb 0 c.total_items in
        let t = after_todo-Counted b files.todo (after_checklist c) refl in
        let s =
          after_sync-Synced indices files.sync (after_todo b files.todo (after_checklist c))
            t.sync in
        rw (s.clean, s.checklist, s.todo, t.checklist, t.todo, e.0, e.1)
          (both (all_checked items) (todos_done files.todo) (sync_clean indices files.sync)
            (has_items items))
