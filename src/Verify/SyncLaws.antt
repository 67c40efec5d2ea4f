-- ===== src/Verify/SyncLaws.antt =====
-- src/core/loop/verification.ts: what the answer of hasRealSyncIssues depends on.
use open_supervisor.Verify.Checklist.{trim}
use open_supervisor.Verify.Sync.{
  sync_issue_patterns, test_all, is_empty, is_ordinary, is_title, has_real_sync_issues,
}
use open_supervisor.Todos.Text.{Text, split}
use open_supervisor.Prelude.{refl, [], ◌||◌, ◌∷◌, Bool, true, false, ◌≡◌, any, List, ℕ}

ordinary-not_empty : (s : Text) → any is_ordinary (split s) ≡ true → is_empty s ≡ false
unfolding split
ordinary-not_empty [] h = cc h
ordinary-not_empty (c ∷ s) h = refl

-- A text with a line that is no heading, no rule and not blank, and that is not the bare title, has issues
-- in every call, wherever the matches of earlier calls ended.
pub has_real_sync_issues-ordinary :
    (indices : List ℕ) (content : Text)
    → is_title (trim content) ≡ false
    → any is_ordinary (split (trim content)) ≡ true
    → (has_real_sync_issues indices content).1 ≡ true
unfolding has_real_sync_issues
has_real_sync_issues-ordinary indices content t h =
    rw (ordinary-not_empty (trim content) h, t, h)
      (or_true (test_all sync_issue_patterns indices (trim content)).1)
  where
    or_true : (b : Bool) → (b || true) ≡ true
    or_true true = refl
    or_true false = refl
