-- ===== src/Todos/Again.antt =====
-- src/core/todo/todo-manager.ts: marking the items of a text twice, and the place of a new task.
use open_supervisor.Todos.Boxes.{append-IsLine, split-mark_items}
use open_supervisor.Todos.Lines.{split-IsLine, split-join, join-split, IsLine, has_newline}
use open_supervisor.Todos.Text.{
  newline, is_marked, join, split, is_space, sub_task_line, indent, includes, marker_of, mark_line,
  box, mark_items, Text, is_box, insert_sub_task, replace_box, inserted,
}
use open_supervisor.Prelude.{
  none, refl, ◌∙◌, ◌==◌, [], inr, ap, subst, arith, ap₂, some, str_eq, if◌then◌else◌, inl, sym, All,
  Bool, Bool-cases, ◌++◌, false, map, true, ◌∷◌, ◌≡◌, any, List, String, ℕ,
}

IsMark : ℕ → Type 0
IsMark x = is_box 91 x 93 ≡ true

replace_box-head : (x c : ℕ) (s : Text) → (r : Text) × (replace_box (box x) (c ∷ s) ≡ c ∷ r)
unfolding replace_box
replace_box-head x c [] = ([], refl)
replace_box-head x c (d ∷ []) = (d ∷ [], refl)
replace_box-head x c (d ∷ e ∷ s) = elim (Bool-cases (is_box c d e)) [
  | inl here ↦
      let opens : 91 ≡ c = ground (arith, here) in
      (x ∷ 93 ∷ s, rw here (ap (λ k. k ∷ x ∷ 93 ∷ s) opens))
  | inr later ↦ (replace_box (box x) (d ∷ e ∷ s), rw later refl)
]

no_box_over : (a x : ℕ) → is_box a 91 x ≡ false
no_box_over a x = ground arith

replace_box-next :
    (x a b c : ℕ) (s : Text)
    → is_box a b c ≡ false
    → (d e : ℕ) × (r : Text) × (replace_box (box x) (b ∷ c ∷ s) ≡ d ∷ e ∷ r)
      × (is_box a d e ≡ false)
unfolding replace_box
replace_box-next x a b c [] h = (b, c, [], refl, h)
replace_box-next x a b c (d ∷ s) h = elim (Bool-cases (is_box b c d)) [
  | inl here ↦ (91, x, 93 ∷ s, rw here refl, no_box_over a x)
  | inr later ↦ let (r, e) = replace_box-head x c (d ∷ s) in (b, c, r, rw (later, e) refl, h)
]

replace_box-replace_box :
    (x : ℕ) (s : Text)
    → IsMark x
    → replace_box (box x) (replace_box (box x) s) ≡ replace_box (box x) s
unfolding replace_box IsMark
replace_box-replace_box x [] h = refl
replace_box-replace_box x (a ∷ []) h = refl
replace_box-replace_box x (a ∷ b ∷ []) h = refl
replace_box-replace_box x (a ∷ b ∷ c ∷ s) h = elim (Bool-cases (is_box a b c)) [
  | inl here ↦ rw (here, h) refl
  | inr later ↦
      let (d, e, r, q, apart) = replace_box-next x a b c s later in
      let ih = replace_box-replace_box x (b ∷ c ∷ s) h in
      let kept : replace_box (box x) (d ∷ e ∷ r) ≡ d ∷ e ∷ r =
        ap (replace_box (box x)) (sym q) ∙ ih ∙ q in
      rw (later, q, apart) (ap (◌∷◌ a) kept)
]

mark_line-mark_line :
    (search line : Text) (x : ℕ)
    → IsMark x
    → mark_line search (box x) (mark_line search (box x) line) ≡ mark_line search (box x) line
mark_line-mark_line search line x h = elim (Bool-cases (is_marked search line)) [
  | inl marked ↦ rw marked (again (is_marked search (replace_box (box x) line)))
  | inr other ↦ rw (other, other) refl
]
  where
    again :
        (b : Bool)
        → (if b then replace_box (box x) (replace_box (box x) line) else replace_box (box x) line)
          ≡ replace_box (box x) line
    again true = replace_box-replace_box x line h
    again false = refl

marker_of-box : (status : String) → (x : ℕ) × (marker_of status ≡ box x) × IsMark x
unfolding IsMark
marker_of-box status = elim (Bool-cases (str_eq status "completed")) [
  | inl q1 ↦ (120, rw q1 refl, refl)
  | inr n1 ↦ elim (Bool-cases (str_eq status "progress")) [
    | inl q2 ↦ (47, rw (n1, q2) refl, refl)
    | inr n2 ↦ elim (Bool-cases (str_eq status "failed")) [
      | inl q3 ↦ (45, rw (n1, n2, q3) refl, refl)
      | inr n3 ↦ (32, rw (n1, n2, n3) refl, refl)
    ]
  ]
]

box-IsLine : (x : ℕ) → IsMark x → has_newline (box x) ≡ false
unfolding IsMark
box-IsLine x h = ground arith

map-twice :
    (f : Text → Text) (lines : List Text)
    → ((line : Text) → f (f line) ≡ f line)
    → map f (map f lines) ≡ map f lines
map-twice f [] h = refl
map-twice f (line ∷ lines) h = ap₂ ◌∷◌ (h line) (map-twice f lines h)

-- Setting the status of the items with a text twice is the same as setting it once.
pub mark_items-mark_items :
    (search content : Text) (status : String)
    → mark_items search (marker_of status) (mark_items search (marker_of status) content)
      ≡ mark_items search (marker_of status) content
mark_items-mark_items search content status =
    let (x, e, h) = marker_of-box status in rw e (by_box x h)
  where
    by_box :
        (x : ℕ)
        → IsMark x
        → mark_items search (box x) (mark_items search (box x) content)
          ≡ mark_items search (box x) content
    by_box x h =
        let once = split-mark_items search (box x) content (box-IsLine x h) in
        let twice =
          split-mark_items search (box x) (mark_items search (box x) content) (box-IsLine x h) in
        let f : Text → Text = mark_line search (box x) in
        sym (join-split (mark_items search (box x) (mark_items search (box x) content)))
        ∙ ap join (
            twice
            ∙ ap (map f) once
            ∙ map-twice f (split content) (λ line. mark_line-mark_line search line x h)
            ∙ sym once)
        ∙ join-split (mark_items search (box x) content)

indent-IsLine : (s : Text) → IsLine s → IsLine (indent s)
indent-IsLine [] h = refl
indent-IsLine (c ∷ s) h = elim (Bool-cases (is_space c)) [
  | inl blank ↦ elim (Bool-cases (c == newline)) [
    | inl ends ↦ cc (rw ends at h)
    | inr more ↦ rw (blank, more) (indent-IsLine s (rw more at h))
  ]
  | inr ink ↦ rw ink refl
]

inserted-below :
    (parent text : Text) (before : List Text) (line : Text) (after : List Text)
    → any (includes parent) before ≡ false
    → includes parent line ≡ true
    → inserted parent text (before ++ (line ∷ after))
      ≡ some (before ++ (line ∷ sub_task_line text line ∷ after))
unfolding inserted
inserted-below parent text [] line after none_before here = rw here refl
inserted-below parent text (l ∷ before) line after none_before here =
    elim (Bool-cases (includes parent l)) [
      | inl hit ↦ cc (rw hit at none_before)
      | inr miss ↦
          rw (miss, inserted-below parent text before line after (rw miss at none_before) here) refl
    ]

lines_below :
    (text : Text) (before : List Text) (line : Text) (after : List Text)
    → IsLine text
    → All IsLine (before ++ (line ∷ after))
    → All IsLine (before ++ (line ∷ sub_task_line text line ∷ after))
lines_below text [] line after h k = (k.0, (below, k.1))
  where
    below : IsLine (sub_task_line text line)
    below =
        append-IsLine (indent line ++ (32 ∷ 32 ∷ 45 ∷ 32 ∷ box 32)) (32 ∷ text)
          (append-IsLine (indent line) (32 ∷ 32 ∷ 45 ∷ 32 ∷ box 32) (indent-IsLine line k.0) refl) h
lines_below text (l ∷ before) line after h k = (k.0, lines_below text before line after h k.1)

split_again :
    (lines : List Text) (line : Text) (before after : List Text)
    → lines ≡ before ++ (line ∷ after)
    → All IsLine lines
    → split (join lines) ≡ lines
split_again [] line [] after e h = cc e
split_again [] line (l ∷ before) after e h = cc e
split_again (l ∷ lines) line before after e h = split-join l lines h

-- A new task whose text has no newline becomes the line below the first line with the text of its parent;
-- the other lines stay as they are.
pub split-insert_sub_task :
    (parent text content : Text) (before : List Text) (line : Text) (after : List Text)
    → has_newline text ≡ false
    → split content ≡ before ++ (line ∷ after)
    → any (includes parent) before ≡ false
    → includes parent line ≡ true
    → split (insert_sub_task parent text content)
      ≡ before ++ (line ∷ sub_task_line text line ∷ after)
unfolding insert_sub_task
split-insert_sub_task parent text content before line after h e none_before here =
    ap (λ o. split (elim o [ none ↦ content | some lines ↦ join lines ]))
      (ap (inserted parent text) e ∙ inserted-below parent text before line after none_before here)
    ∙ split_again _ line before (sub_task_line text line ∷ after) refl
        (lines_below text before line after h (subst (All IsLine) e (split-IsLine content)))
