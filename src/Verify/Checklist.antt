-- ===== src/Verify/Checklist.antt =====
-- src/core/loop/verification.ts: parseChecklist and verifyChecklist. A text is its UTF-16 code units.
-- `to_lower` is JavaScript's toLowerCase. A progress `"3/5"` is the pair of its numbers, and the messages
-- of `errors` are the constructors of a type.
use open_supervisor.Recovery.Regex.{units}
use open_supervisor.Todos.Text.{is_prefix, includes, split, is_space, Text}
use open_supervisor.Prelude.{
  take, false, String, List, true, some, [], any, if◌then◌else◌, ◌||◌, none, Option, ◌==◌, ◌∷◌,
  Bool, ℕ,
}

-- What stands at a path.
pub data File : Type 0 where
  absent : File
  unreadable : File
  holds : Text → File

pub data ChecklistCategory : Type 0 where
  code_quality : ChecklistCategory
  unit_tests : ChecklistCategory
  integration_tests : ChecklistCategory
  build : ChecklistCategory
  runtime : ChecklistCategory
  infrastructure : ChecklistCategory
  custom : ChecklistCategory

pub record ChecklistItem : Type 0 where
  pub id : Text
  pub category : ChecklistCategory
  pub description : Text
  pub completed : Bool

-- Where `.` stops, and where a line ends for `^` with the flag `m`.
abbrev pub is_terminator : ℕ → Bool
is_terminator c = c == 10 || c == 13 || c == 8232 || c == 8233

abbrev pub skip_spaces : Text → Text
skip_spaces [] = []
skip_spaces (c ∷ s) = if is_space c then skip_spaces s else c ∷ s

-- The text up to its last character that is no space.
abbrev pub trim_end : Text → Text
trim_end [] = []
trim_end (c ∷ s) =
    let rest = trim_end s in
    elim rest [ [] ↦ if is_space c then [] else c ∷ [] | d ∷ t ↦ c ∷ d ∷ t ]

abbrev pub trim : Text → Text
trim s = trim_end (skip_spaces s)

abbrev pub is_bullet : ℕ → Bool
is_bullet c = c == 45 || c == 42

-- `\s+`
abbrev pub spaces : Text → Option Text
spaces [] = none
spaces (c ∷ s) = if is_space c then some (skip_spaces s) else none

-- `(.+)$`
abbrev pub to_end : Text → Option Text
to_end [] = none
to_end (c ∷ s) = if any is_terminator (c ∷ s) then none else some (c ∷ s)

abbrev pub is_mark : ℕ → Bool
is_mark c = c == 120 || c == 88 || is_space c

-- The rest after a literal text.
abbrev pub after : Text → Text → Option Text
after [] s = some s
after (c ∷ t) [] = none
after (c ∷ t) (d ∷ s) = if c == d then after t s else none

infixl 5 ◌>>=◌
abbrev pub ◌>>=◌ : {A B : Type 0} → Option A → (A → Option B) → Option B
◌>>=◌ o f = elim o [ none ↦ none | some a ↦ f a ]

abbrev pub head : Text → Option (ℕ × Text)
head [] = none
head (c ∷ s) = some (c, s)

-- The rest after a bullet, `[-*]`.
abbrev pub bulleted : Text → Option Text
bulleted [] = none
bulleted (c ∷ s) = if is_bullet c then some s else none

-- `^[-*]\s*\[([xX\s])\]`, with the mark and the rest.
abbrev pub item_start : Text → Option (ℕ × Text)
item_start s = do
  t ← bulleted s
  u ← after (91 ∷ []) (skip_spaces t)
  (mark, v) ← head u
  rest ← after (93 ∷ []) v
  if is_mark mark then some (mark, rest) else none

-- `([^*]+)` up to the first star, and the rest from it on.
abbrev pub until_star : Text → Text × Text
until_star [] = ([], [])
until_star (c ∷ s) = let r = until_star s in if c == 42 then ([], c ∷ s) else (c ∷ r.0, r.1)

-- `\s+\*\*([^*]+)\*\*:\s+(.+)$`: the name and the description.
abbrev pub named : Text → Option (Text × Text)
named s = do
  t ← spaces s
  u ← after (42 ∷ 42 ∷ []) t
  (c, name) ← head (until_star u).0
  v ← after (42 ∷ 42 ∷ 58 ∷ []) (until_star u).1
  w ← spaces v
  description ← to_end w
  some (c ∷ name, description)

-- `replace(/\s+/g, "-")`, after a character that is a space or not.
abbrev pub dashed : Bool → Text → Text
dashed after_space [] = []
dashed after_space (c ∷ s) =
    if is_space c
    then if after_space then dashed true s else 45 ∷ dashed true s
    else c ∷ dashed false s

abbrev pub is_x : ℕ → Bool
is_x c = c == 120 || c == 88

module _ (to_lower : Text → Text) where
  -- parseChecklistLine, on the trimmed line.
  abbrev pub parse_trimmed : Text → ChecklistCategory → Option ChecklistItem
  parse_trimmed line category = elim (item_start line) [
    | none ↦ none
    | some (mark, rest) ↦ elim (named rest) [
      | some (name, description) ↦ some (record {
        id = dashed false (to_lower name);
        category = category;
        description = description;
        completed = is_x mark;
      })
      | none ↦ elim (spaces rest >>= to_end) [
        | none ↦ none
        | some description ↦ some (record {
          id = take 30 (dashed false (to_lower description));
          category = category;
          description = description;
          completed = is_x mark;
        })
      ]
    ]
  ]

  abbrev pub parse_checklist_line : Text → ChecklistCategory → Option ChecklistItem
  parse_checklist_line line category = parse_trimmed (trim line) category

  abbrev pub has_word : Text → List String → Bool
  has_word s words = any (λ word. includes (units word) s) words

  unfoldable pub detect_category : Text → ChecklistCategory
  detect_category header =
      let s = to_lower header in
      if has_word s ("code quality" ∷ "lint" ∷ "type" ∷ [])
      then code_quality
      else if has_word s ("unit test" ∷ [])
      then unit_tests
      else if has_word s ("integration" ∷ "e2e" ∷ [])
      then integration_tests
      else if has_word s ("build" ∷ [])
      then build
      else if has_word s ("runtime" ∷ "start" ∷ "run" ∷ [])
      then runtime
      else if has_word s ("infrastructure" ∷ "environment" ∷ "docker" ∷ "deploy" ∷ [])
      then infrastructure
      else custom

  -- The loop of parseChecklist.
  unfoldable pub parse_lines : ChecklistCategory → List Text → List ChecklistItem
  parse_lines category [] = []
  parse_lines category (line ∷ lines) =
      let next =
        if is_prefix (units "## ") (trim line) then detect_category (trim line) else category in
      let rest = parse_lines next lines in
      if is_prefix (units "## ") (trim line)
      then rest
      else elim (parse_checklist_line line category) [ none ↦ rest | some item ↦ item ∷ rest ]

  unfoldable pub parse_checklist : Text → List ChecklistItem
  parse_checklist content = parse_lines custom (split content)

  abbrev pub read_checklist : File → List ChecklistItem
  read_checklist absent = []
  read_checklist unreadable = []
  read_checklist (holds content) = parse_checklist content
