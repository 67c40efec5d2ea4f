-- ===== src/Verify/Completion.antt =====
-- src/core/loop/verification.ts: verifyMissionCompletion, with what stands at its three paths.
use open_supervisor.Verify.Result.{
  ChecklistVerificationResult, verify_checklist, Problem, sync_issues, checklist_incomplete,
  todo_not_found, no_todo_items, todo_unreadable, item_incomplete, more_incomplete,
}
use open_supervisor.Verify.Todos.{complete_box, incomplete_box, count_matches}
use open_supervisor.Verify.Sync.{count_issues, has_real_sync_issues}
use open_supervisor.Todos.Text.{Text}
use open_supervisor.Verify.Checklist.{unreadable, absent, holds, File}
use open_supervisor.Prelude.{
  ◌-◌, length, take, map, ◌∷◌, ◌+◌, not, [], true, ◌&&◌, ltb, if◌then◌else◌, false, ◌++◌, ◌==◌,
  List, Bool, ℕ,
}

pub record Files : Type 0 where
  pub checklist : File
  pub todo : File
  pub sync : File

pub record VerificationResult : Type 0 where
  pub passed : Bool
  pub todo_complete : Bool
  pub todo_progress : ℕ × ℕ
  pub todo_incomplete : ℕ
  pub sync_issues_empty : Bool
  pub sync_issues_count : ℕ
  pub checklist_complete : Bool
  pub checklist_progress : ℕ × ℕ
  pub errors : List Problem

abbrev pub max_error_items : ℕ
max_error_items = 5

-- The first step: the checklist.
abbrev pub checklist_errors : ChecklistVerificationResult → List Problem
checklist_errors r =
    if ltb 0 r.total_items && not r.passed
    then (checklist_incomplete r.progress
        ∷ map item_incomplete (take max_error_items r.incomplete_list))
      ++ (if ltb max_error_items (length r.incomplete_list)
          then more_incomplete (length r.incomplete_list - max_error_items) ∷ []
          else [])
    else []

abbrev pub after_checklist : ChecklistVerificationResult → VerificationResult
after_checklist r = record {
  passed = false;
  todo_complete = false;
  todo_progress = (0, 0);
  todo_incomplete = 0;
  sync_issues_empty = true;
  sync_issues_count = 0;
  checklist_complete = r.passed;
  checklist_progress = r.progress;
  errors = checklist_errors r;
}

-- The second step: the todos.
abbrev pub todo_errors : Bool → ℕ → ℕ → List Problem
todo_errors has_checklist incomplete complete =
    if not ((incomplete == 0) && ltb 0 (incomplete + complete)) && not has_checklist
    then if incomplete + complete == 0
      then no_todo_items ∷ []
      else Problem.todo_incomplete (complete, incomplete + complete) ∷ []
    else []

abbrev pub counted : Bool → ℕ → ℕ → VerificationResult → VerificationResult
counted has_checklist incomplete complete r = record r {
  todo_incomplete = incomplete;
  todo_complete = (incomplete == 0) && ltb 0 (incomplete + complete);
  todo_progress = (complete, incomplete + complete);
  errors = r.errors ++ todo_errors has_checklist incomplete complete;
}

abbrev pub after_todo : Bool → File → VerificationResult → VerificationResult
after_todo has_checklist absent r = record r {
  errors = r.errors ++ (if has_checklist then [] else todo_not_found ∷ []);
}
after_todo has_checklist unreadable r = record r { errors = r.errors ++ (todo_unreadable ∷ []) }
after_todo has_checklist (holds content) r =
    counted has_checklist (count_matches incomplete_box content)
      (count_matches complete_box content) r

-- The third step: the sync issues.
abbrev pub issues_in : Text → Bool → VerificationResult → VerificationResult
issues_in content real r =
    if real
    then record r {
      sync_issues_empty = false;
      sync_issues_count = count_issues content;
      errors = r.errors ++ (sync_issues (count_issues content) ∷ []);
    }
    else r

abbrev pub after_sync : List ℕ → File → VerificationResult → List ℕ × VerificationResult
after_sync indices absent r = (indices, r)
after_sync indices unreadable r = (indices, r)
after_sync indices (holds content) r =
    let found = has_real_sync_issues indices content in (found.0, issues_in content found.1 r)

abbrev pub decided : Bool → VerificationResult → VerificationResult
decided has_checklist r = record r {
  passed =
      if has_checklist
      then r.checklist_complete && r.sync_issues_empty
      else r.todo_complete && r.sync_issues_empty;
}

-- `indices` are the last indices of the patterns for sync issues.
unfoldable pub verify_mission_completion :
    (Text → Text) → Files → List ℕ → List ℕ × VerificationResult
verify_mission_completion to_lower files indices =
    let c = verify_checklist to_lower files.checklist in
    let has_checklist = ltb 0 c.total_items in
    let r =
      after_sync indices files.sync (after_todo has_checklist files.todo (after_checklist c)) in
    (r.0, decided has_checklist r.1)
