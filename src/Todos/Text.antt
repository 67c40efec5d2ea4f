-- ===== src/Todos/Text.antt =====
-- src/core/todo/todo-manager.ts: the edits of updateItem and addSubTask on the text of the file. A text is
-- its UTF-16 code units. A status that is the name of a property of every JavaScript object is left out.
use open_supervisor.Prelude.{
  map, str_eq, some, false, true, any, [], ◌==◌, Option, ◌||◌, leb, ◌&&◌, ◌++◌, none, String, Bool,
  ◌∷◌, if◌then◌else◌, List, ℕ,
}

abbrev pub Text : Type 0
Text = List ℕ

abbrev pub newline : ℕ
newline = 10

abbrev pub consed : ℕ → List Text → List Text
consed c [] = (c ∷ []) ∷ []
consed c (line ∷ lines) = (c ∷ line) ∷ lines

-- `split("\n")`
unfoldable pub split : Text → List Text
split [] = [] ∷ []
split (c ∷ s) = let rest = split s in if c == newline then [] ∷ rest else consed c rest

-- `join("\n")`
unfoldable pub join : List Text → Text
join [] = []
join (line ∷ []) = line
join (line ∷ next ∷ lines) = line ++ (newline ∷ join (next ∷ lines))

abbrev pub is_prefix : Text → Text → Bool
is_prefix [] s = true
is_prefix (c ∷ t) [] = false
is_prefix (c ∷ t) (d ∷ s) = (c == d) && is_prefix t s

unfoldable pub includes : Text → Text → Bool
includes t [] = is_prefix t []
includes t (c ∷ s) = is_prefix t (c ∷ s) || includes t s

-- The expression `\[[ x\/\-]\]`.
abbrev pub is_box : ℕ → ℕ → ℕ → Bool
is_box a b c = (a == 91) && (b == 32 || b == 120 || b == 47 || b == 45) && (c == 93)

unfoldable pub has_box : Text → Bool
has_box [] = false
has_box (a ∷ []) = false
has_box (a ∷ b ∷ []) = false
has_box (a ∷ b ∷ c ∷ s) = is_box a b c || has_box (b ∷ c ∷ s)

-- `replace` of the first match by a marker.
unfoldable pub replace_box : Text → Text → Text
replace_box marker [] = []
replace_box marker (a ∷ []) = a ∷ []
replace_box marker (a ∷ b ∷ []) = a ∷ b ∷ []
replace_box marker (a ∷ b ∷ c ∷ s) =
    let rest = replace_box marker (b ∷ c ∷ s) in if is_box a b c then marker ++ s else a ∷ rest

abbrev pub is_marked : Text → Text → Bool
is_marked search line = includes search line && has_box line

abbrev pub mark_line : Text → Text → Text → Text
mark_line search marker line = if is_marked search line then replace_box marker line else line

-- The updater of updateItem.
unfoldable pub mark_items : Text → Text → Text → Text
mark_items search marker content =
    let lines : List Text = split content in
    if any (is_marked search) lines then join (map (mark_line search marker) lines) else content

-- The markers of TODO_CONSTANTS.
abbrev pub box : ℕ → Text
box c = 91 ∷ c ∷ 93 ∷ []

-- `statusMap[newStatus] || MARKERS.PENDING`
abbrev pub marker_of : String → Text
marker_of status =
    if str_eq status "completed"
    then box 120
    else if str_eq status "progress"
    then box 47
    else if str_eq status "failed"
    then box 45
    else box 32

-- `\s`
abbrev pub is_space : ℕ → Bool
is_space c =
    (leb 9 c && leb c 13)
    || any (◌==◌ c) (32 ∷ 160 ∷ 5760 ∷ 8232 ∷ 8233 ∷ 8239 ∷ 8287 ∷ 12288 ∷ 65279 ∷ [])
    || (leb 8192 c && leb c 8202)

abbrev pub indent : Text → Text
indent [] = []
indent (c ∷ s) = if is_space c then c ∷ indent s else []

-- The line of a new task below a line.
abbrev pub sub_task_line : Text → Text → Text
sub_task_line text parent = indent parent ++ (32 ∷ 32 ∷ 45 ∷ 32 ∷ box 32) ++ (32 ∷ text)

-- The loop that looks for the parent, and `splice`; `none` when no line is a parent.
unfoldable pub inserted : Text → Text → List Text → Option (List Text)
inserted parent text [] = none
inserted parent text (line ∷ lines) =
    let rest = inserted parent text lines in
    if includes parent line
    then some (line ∷ sub_task_line text line ∷ lines)
    else elim rest [ none ↦ none | some more ↦ some (line ∷ more) ]

-- The updater of addSubTask.
unfoldable pub insert_sub_task : Text → Text → Text → Text
insert_sub_task parent text content = elim (inserted parent text (split content)) [
  | none ↦ content
  | some lines ↦ join lines
]
