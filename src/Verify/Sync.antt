-- ===== src/Verify/Sync.antt =====
-- src/core/loop/verification.ts: hasRealSyncIssues. The expressions of SYNC_ISSUE_PATTERNS have the flag
-- `g`, so each keeps between the calls where its last match ended: its `lastIndex`.
use Prim.Native.Nat.{zero}
use open_supervisor.Verify.Checklist.{bulleted, spaces, head, ◌>>=◌}
use open_supervisor.Recovery.Regex.{units, lower}
use open_supervisor.Verify.Checklist.{is_terminator, skip_spaces, trim, after}
use open_supervisor.Todos.Text.{split, is_prefix, Text}
use open_supervisor.Prelude.{
  ◌-◌, ◌+◌, ◌==◌, drop, map, suc, ◌&&◌, any, filter, some, [], none, length, Option, not, ◌||◌,
  false, ◌∷◌, true, if◌then◌else◌, List, Bool, String, ℕ,
}

-- The length of a match at the start of a text, at a line start or not.
abbrev pub Matcher : Type 0
Matcher = Bool → Text → Option ℕ

-- `^[-*]\s+\S`
abbrev pub bullet_item : Matcher
bullet_item start s = do
  t ← bulleted s
  u ← spaces t
  (c, v) ← head u
  if start then some (length s - length v) else none

-- A word in any case.
abbrev pub word : String → Matcher
word w start s =
    if is_prefix (map lower (units w)) (map lower s) then some (length (units w)) else none

abbrev pub sync_issue_patterns : List Matcher
sync_issue_patterns = bullet_item ∷ word "ERROR" ∷ word "FAIL" ∷ word "CONFLICT" ∷ []

-- Where the first match ends that starts after `skip` more characters, from the position `i` on.
unfoldable pub search_from : Matcher → Bool → ℕ → ℕ → Text → Option ℕ
search_from m start skip i [] = none
search_from m start (suc skip) i (c ∷ s) = search_from m (is_terminator c) skip (i + 1) s
search_from m start zero i (c ∷ s) =
    let next = search_from m (is_terminator c) 0 (i + 1) s in
    elim (m start (c ∷ s)) [ none ↦ next | some n ↦ some (i + n) ]

-- The loop of `pattern.test`: it ends at the first pattern that matches.
unfoldable pub test_all : List Matcher → List ℕ → Text → List ℕ × Bool
test_all [] indices s = (indices, false)
test_all (m ∷ ms) [] s = ([], false)
test_all (m ∷ ms) (last ∷ indices) s =
    let rest = test_all ms indices s in
    elim (search_from m true last 0 s) [
      | some end ↦ (end ∷ indices, true)
      | none ↦ (0 ∷ rest.0, rest.1)
    ]

-- `^#\s*Sync Issues\s*$` in any case.
abbrev pub is_title : Text → Bool
is_title s = elim (after (35 ∷ []) s) [
  | none ↦ false
  | some t ↦ elim (word "Sync Issues" true (skip_spaces t)) [
    | none ↦ false
    | some n ↦ elim (skip_spaces (drop n (skip_spaces t))) [ [] ↦ true | c ∷ u ↦ false ]
  ]
]

abbrev pub is_empty : Text → Bool
is_empty [] = true
is_empty (c ∷ s) = false

-- The lines that are no headings, no rules and not blank.
abbrev pub is_ordinary : Text → Bool
is_ordinary line =
    not (is_empty (trim line))
    && not (is_prefix (35 ∷ []) (trim line))
    && not (is_prefix (45 ∷ 45 ∷ 45 ∷ []) (trim line) && length (trim line) == 3)

-- What is left to look at when no pattern matches.
abbrev pub by_lines : Text → List ℕ × Bool → List ℕ × Bool
by_lines s r = (r.0, r.1 || any is_ordinary (split s))

unfoldable pub has_real_sync_issues : List ℕ → Text → List ℕ × Bool
has_real_sync_issues indices content =
    if is_empty (trim content)
    then (indices, false)
    else if is_title (trim content)
    then (indices, false)
    else by_lines (trim content) (test_all sync_issue_patterns indices (trim content))

-- The expression of the lines that are counted.
abbrev pub is_issue_line : Text → Bool
is_issue_line line =
    found (bullet_item true (trim line))
    || found (search_from (word "ERROR") true 0 0 line)
    || found (search_from (word "FAIL") true 0 0 line)
    || found (search_from (word "CONFLICT") true 0 0 line)
  where
    found : Option ℕ → Bool
    found none = false
    found (some n) = true

unfoldable pub count_issues : Text → ℕ
count_issues content = length (filter is_issue_line (split content))
