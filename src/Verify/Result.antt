-- ===== src/Verify/Result.antt =====
-- src/core/loop/verification.ts: verifyChecklist and what it says of a checklist.
use open_supervisor.Verify.Checklist.{
  custom, infrastructure, runtime, build, unreadable, integration_tests, absent, holds, unit_tests,
  code_quality, read_checklist, File, ChecklistItem, ChecklistCategory,
}
use open_supervisor.Recovery.Regex.{units}
use open_supervisor.Todos.Text.{Text}
use open_supervisor.Prelude.{
  not, map, ltb, ◌-◌, filter, ◌++◌, length, ◌&&◌, false, String, List, [], if◌then◌else◌, ◌==◌, ◌∷◌,
  Bool, ℕ,
}

-- The messages of `errors`.
pub data Problem : Type 0 where
  checklist_not_found : Problem
  checklist_empty : Problem
  checklist_incomplete : ℕ × ℕ → Problem
  item_incomplete : Text → Problem
  more_incomplete : ℕ → Problem
  no_todo_items : Problem
  todo_incomplete : ℕ × ℕ → Problem
  todo_unreadable : Problem
  todo_not_found : Problem
  sync_issues : ℕ → Problem

pub record ChecklistVerificationResult : Type 0 where
  pub passed : Bool
  pub total_items : ℕ
  pub completed_items : ℕ
  pub incomplete_items : ℕ
  pub progress : ℕ × ℕ
  pub incomplete_list : List Text
  pub errors : List Problem

abbrev pub label : ChecklistCategory → String
label code_quality = "Code Quality"
label unit_tests = "Unit Tests"
label integration_tests = "Integration Tests"
label build = "Build Verification"
label runtime = "Runtime Verification"
label infrastructure = "Infrastructure & Environment"
label custom = "Project-Specific Checks"

abbrev pub shown : ChecklistItem → Text
shown i = (91 ∷ units (label i.category)) ++ (93 ∷ 32 ∷ i.description)

abbrev pub nothing : Problem → ChecklistVerificationResult
nothing problem = record {
  passed = false;
  total_items = 0;
  completed_items = 0;
  incomplete_items = 0;
  progress = (0, 0);
  incomplete_list = [];
  errors = problem ∷ [];
}

abbrev pub checked : List ChecklistItem → ChecklistVerificationResult
checked [] = nothing checklist_empty
checked (item ∷ more) =
    let items : List ChecklistItem = item ∷ more in
    let total = length items in
    let completed = length (filter (λ i. i.completed) items) in
    record {
      passed = (total - completed == 0) && ltb 0 total;
      total_items = total;
      completed_items = completed;
      incomplete_items = total - completed;
      progress = (completed, total);
      incomplete_list = map shown (filter (λ i. not i.completed) items);
      errors =
          if ltb 0 (total - completed) then checklist_incomplete (completed, total) ∷ [] else [];
    }

unfoldable pub verify_checklist : (Text → Text) → File → ChecklistVerificationResult
verify_checklist to_lower absent = nothing checklist_not_found
verify_checklist to_lower unreadable = checked (read_checklist to_lower unreadable)
verify_checklist to_lower (holds content) = checked (read_checklist to_lower (holds content))
