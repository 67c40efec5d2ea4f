-- ===== src/Todos/Boxes.antt =====
-- src/core/todo/todo-manager.ts: what the edits of updateItem and addSubTask do to the lines.
use open_supervisor.Todos.Lines.{split-join-map, IsLine, has_newline}
use open_supervisor.Todos.Text.{
  newline, split, is_box, is_marked, mark_line, replace_box, mark_items, Text,
}
use open_supervisor.Prelude.{
  refl, sym, [], ap, inr, inl, ◌==◌, map, Bool-cases, false, ◌≡◌, ◌++◌, any, ◌∷◌, List, ℕ,
}

pub append-IsLine : (s t : Text) → IsLine s → IsLine t → IsLine (s ++ t)
append-IsLine [] t h k = k
append-IsLine (c ∷ s) t h k = elim (Bool-cases (c == newline)) [
  | inl ends ↦ cc (rw ends at h)
  | inr more ↦ rw more (append-IsLine s t (rw more at h) k)
]

tail-IsLine : (c : ℕ) (s : Text) → IsLine (c ∷ s) → IsLine s
tail-IsLine c s h = elim (Bool-cases (c == newline)) [
  | inl ends ↦ cc (rw ends at h)
  | inr more ↦ rw more at h
]

replace_box-IsLine : (marker s : Text) → IsLine marker → IsLine s → IsLine (replace_box marker s)
unfolding replace_box
replace_box-IsLine marker [] h k = k
replace_box-IsLine marker (a ∷ []) h k = k
replace_box-IsLine marker (a ∷ b ∷ []) h k = k
replace_box-IsLine marker (a ∷ b ∷ c ∷ s) h k = elim (Bool-cases (is_box a b c)) [
  | inl here ↦ rw here (
      append-IsLine marker s h
        (tail-IsLine c s (tail-IsLine b (c ∷ s) (tail-IsLine a (b ∷ c ∷ s) k))))
  | inr later ↦ elim (Bool-cases (a == newline)) [
    | inl ends ↦ cc (rw ends at k)
    | inr more ↦
        rw (later, more) (replace_box-IsLine marker (b ∷ c ∷ s) h (tail-IsLine a (b ∷ c ∷ s) k))
  ]
]

mark_line-IsLine :
    (search marker line : Text)
    → IsLine marker
    → IsLine line
    → IsLine (mark_line search marker line)
mark_line-IsLine search marker line h k = elim (Bool-cases (is_marked search line)) [
  | inl marked ↦ rw marked (replace_box-IsLine marker line h k)
  | inr other ↦ rw other k
]

unmarked :
    (search marker : Text) (lines : List Text)
    → any (is_marked search) lines ≡ false
    → map (mark_line search marker) lines ≡ lines
unmarked search marker [] e = refl
unmarked search marker (line ∷ lines) e = elim (Bool-cases (is_marked search line)) [
  | inl marked ↦ cc (rw marked at e)
  | inr other ↦ rw other (ap (◌∷◌ line) (unmarked search marker lines (rw other at e)))
]

-- The lines after updateItem are the lines before it, each marked if it has the text and a box, and the
-- same otherwise: none is lost, split or joined.
pub split-mark_items :
    (search marker content : Text)
    → has_newline marker ≡ false
    → split (mark_items search marker content) ≡ map (mark_line search marker) (split content)
unfolding mark_items
split-mark_items search marker content h =
    elim (Bool-cases (any (is_marked search) (split content))) [
      | inl some_marked ↦ rw some_marked (
          split-join-map (mark_line search marker) content
            (λ line k. mark_line-IsLine search marker line h k))
      | inr none_marked ↦ rw none_marked (sym (unmarked search marker (split content) none_marked))
    ]
