-- ===== src/Verify/Examples.antt =====
-- The theorems about src/core/loop/verification.ts at concrete inputs, and tests.
use open_supervisor.Verify.Unseen.{count-insert_sub_task}
use open_supervisor.Verify.CompletionLaws.{verify-passed}
use open_supervisor.Verify.Completion.{Files, verify_mission_completion}
use open_supervisor.Recovery.Regex.{lower, units}
use open_supervisor.Prelude.{not, refl, filter, [], false, ◌∷◌, true, ◌≡◌, map}
use open_supervisor.Verify.Sync.{search_from, test_all, has_real_sync_issues}
use open_supervisor.Verify.Todos.{incomplete_box, count_from, count_matches}
use open_supervisor.Verify.Checklist.{absent, holds, detect_category, parse_lines, parse_checklist}
use open_supervisor.Todos.Text.{insert_sub_task, includes, split, Text}

abbrev same : Text → Text
same s = map lower s

abbrev checklist : Text
checklist = units "# List\n## Unit tests\n- [x] **Unit**:  all pass \n* [ ] lint runs\n  - [X] more"

checklist_test :
    map (λ i. i.description) (filter (λ i. not i.completed) (parse_checklist same checklist))
    ≡ units "lint runs" ∷ []
unfolding parse_checklist parse_lines detect_category split includes
checklist_test = refl

todo_test : count_matches incomplete_box (units "- [ ] a\n- [x] b\n  - [ ] c\n*[]") ≡ 2
unfolding count_matches count_from
todo_test = refl

-- The same text counts as an issue in the first call and not in the second one.
sync_test : has_real_sync_issues (0 ∷ 0 ∷ 0 ∷ 0 ∷ []) (units "# ERROR") ≡ (0 ∷ 7 ∷ 0 ∷ 0 ∷ [], true)
unfolding has_real_sync_issues test_all search_from split
sync_test = refl

sync_again_test :
    has_real_sync_issues (0 ∷ 7 ∷ 0 ∷ 0 ∷ []) (units "# ERROR") ≡ (0 ∷ 0 ∷ 0 ∷ 0 ∷ [], false)
unfolding has_real_sync_issues test_all search_from split
sync_again_test = refl

abbrev files : Files
files = record { checklist = holds checklist; todo = holds (units "- [x] done"); sync = absent }

verify-passed_example : (verify_mission_completion same files (0 ∷ 0 ∷ 0 ∷ 0 ∷ [])).1.passed ≡ false
unfolding parse_checklist parse_lines detect_category split includes
verify-passed_example = verify-passed same files (0 ∷ 0 ∷ 0 ∷ 0 ∷ [])

-- The only open task is indented, so nothing counts as incomplete.
count-insert_sub_task_example :
    count_matches incomplete_box
      (insert_sub_task (units "build") (units "test") (units "- [x] build"))
    ≡ 0
unfolding split includes count_matches count_from
count-insert_sub_task_example =
    count-insert_sub_task (units "build") (units "test") (units "- [x] build") []
      (units "- [x] build") [] refl refl refl refl tt (refl, refl)
