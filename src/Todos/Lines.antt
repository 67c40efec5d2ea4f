-- ===== src/Todos/Lines.antt =====
-- src/core/todo/todo-manager.ts: the lines of an edited text.
use open_supervisor.Todos.Text.{newline, split, join, Text}
use open_supervisor.Prelude.{
  ap₂, subst, arith, inr, inl, refl, sym, ◌==◌, Bool-cases, map, false, ◌∙◌, any, [], ap, ◌∷◌, ◌≡◌,
  Bool, ◌++◌, All, List, ℕ,
}

abbrev pub has_newline : Text → Bool
has_newline s = any (λ c. c == newline) s

abbrev pub IsLine : Text → Type 0
IsLine s = has_newline s ≡ false

pub split-cons : (s : Text) → (line : Text) × (lines : List Text) × (split s ≡ line ∷ lines)
unfolding split
split-cons [] = ([], [], refl)
split-cons (c ∷ s) =
    let (line, lines, e) = split-cons s in
    elim (Bool-cases (c == newline)) [
      | inl ends ↦ ([], split s, rw ends refl)
      | inr more ↦ (c ∷ line, lines, rw (more, e) refl)
    ]

join-cons :
    (line next : Text) (lines : List Text)
    → join (line ∷ next ∷ lines) ≡ line ++ (newline ∷ join (next ∷ lines))
unfolding join
join-cons line next lines = refl

join-consed :
    (c : ℕ) (line : Text) (lines : List Text) → join ((c ∷ line) ∷ lines) ≡ c ∷ join (line ∷ lines)
unfolding join
join-consed c line [] = refl
join-consed c line (next ∷ lines) = refl

join_empty : join ([] ∷ []) ≡ []
unfolding join
join_empty = refl

pub join-split : (s : Text) → join (split s) ≡ s
unfolding split
join-split [] = join_empty
join-split (c ∷ s) =
    let (line, lines, e) = split-cons s in
    let rest : join (line ∷ lines) ≡ s = ap join (sym e) ∙ join-split s in
    elim (Bool-cases (c == newline)) [
      | inl ends ↦
          let same : newline ≡ c = ground (arith, ends) in
          rw (ends, e) (join-cons [] line lines ∙ ap₂ ◌∷◌ same rest)
      | inr more ↦ rw (more, e) (join-consed c line lines ∙ ap (◌∷◌ c) rest)
    ]

split_line : (line : Text) → IsLine line → split line ≡ line ∷ []
unfolding split
split_line [] h = refl
split_line (c ∷ line) h = elim (Bool-cases (c == newline)) [
  | inl ends ↦ cc (rw ends at h)
  | inr more ↦ rw (more, split_line line (rw more at h)) refl
]

split-append :
    (line rest : Text) → IsLine line → split (line ++ (newline ∷ rest)) ≡ line ∷ split rest
unfolding split
split-append [] rest h = refl
split-append (c ∷ line) rest h = elim (Bool-cases (c == newline)) [
  | inl ends ↦ cc (rw ends at h)
  | inr more ↦ rw (more, split-append line rest (rw more at h)) refl
]

pub split-join :
    (line : Text) (lines : List Text)
    → All IsLine (line ∷ lines)
    → split (join (line ∷ lines)) ≡ line ∷ lines
unfolding join
split-join line [] h = split_line line h.0
split-join line (next ∷ lines) h =
    split-append line (join (next ∷ lines)) h.0 ∙ ap (◌∷◌ line) (split-join next lines h.1)

pub split-IsLine : (s : Text) → All IsLine (split s)
unfolding split
split-IsLine [] = (refl, tt)
split-IsLine (c ∷ s) = elim (Bool-cases (c == newline)) [
  | inl ends ↦ rw ends (refl, split-IsLine s)
  | inr more ↦
      let (line, lines, e) = split-cons s in
      let h : All IsLine (line ∷ lines) = subst (All IsLine) e (split-IsLine s) in
      rw (more, e) (rw more h.0, h.1)
]

-- The lines of a text that is joined again after each line was changed.
pub split-join-map :
    (f : Text → Text) (s : Text)
    → ((line : Text) → IsLine line → IsLine (f line))
    → split (join (map f (split s))) ≡ map f (split s)
split-join-map f s keeps =
    let (line, lines, e) = split-cons s in
    let kept : All IsLine (map f (line ∷ lines)) =
      mapped (line ∷ lines) (subst (All IsLine) e (split-IsLine s)) in
    rw e (split-join (f line) (map f lines) kept)
  where
    mapped : (lines : List Text) → All IsLine lines → All IsLine (map f lines)
    mapped [] h = tt
    mapped (line ∷ lines) h = (keeps line h.0, mapped lines h.1)
