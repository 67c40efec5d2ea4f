-- ===== src/Verify/Todos.antt =====
-- src/core/loop/verification.ts: the counts of the todos with a box, by expressions with the flags `g` and
-- `m`. `\s*` also matches line ends.
use Prim.Native.Nat.{zero}
use open_supervisor.Verify.Checklist.{bulleted, is_x, skip_spaces, after, head, ◌>>=◌}
use open_supervisor.Verify.Checklist.{is_terminator}
use open_supervisor.Todos.Text.{Text}
use open_supervisor.Prelude.{
  length, [], ◌-◌, some, none, if◌then◌else◌, ◌∷◌, suc, true, Bool, Option, ℕ,
}

-- How long the text of TODO_INCOMPLETE_PATTERN, `[-*]\s*\[\s*\]`, is at the start of a text.
abbrev pub incomplete_box : Text → Option ℕ
incomplete_box s = do
  t ← bulleted s
  u ← after (91 ∷ []) (skip_spaces t)
  v ← after (93 ∷ []) (skip_spaces u)
  some (length s - length v)

-- The same for TODO_COMPLETE_PATTERN, `[-*]\s*\[[xX]\]`.
abbrev pub complete_box : Text → Option ℕ
complete_box s = do
  t ← bulleted s
  u ← after (91 ∷ []) (skip_spaces t)
  (mark, v) ← head u
  w ← after (93 ∷ []) v
  if is_x mark then some (length s - length w) else none

-- The matches from here on, at a line start or not, after `skip` more characters of the last match.
unfoldable pub count_from : (Text → Option ℕ) → Bool → ℕ → Text → ℕ
count_from pattern start skip [] = 0
count_from pattern start (suc skip) (c ∷ s) = count_from pattern (is_terminator c) skip s
count_from pattern start zero (c ∷ s) =
    let next = count_from pattern (is_terminator c) 0 s in
    elim (if start then pattern (c ∷ s) else none) [
      | none ↦ next
      | some n ↦ suc (count_from pattern (is_terminator c) (n - 1) s)
    ]

unfoldable pub count_matches : (Text → Option ℕ) → Text → ℕ
count_matches pattern s = count_from pattern true 0 s
