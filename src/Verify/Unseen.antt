-- ===== src/Verify/Unseen.antt =====
-- src/core/loop/verification.ts and src/core/todo/todo-manager.ts: a task that addSubTask adds is not
-- counted.
use open_supervisor.Todos.Again.{split-insert_sub_task}
use open_supervisor.Todos.Lines.{join-split, has_newline}
use open_supervisor.Verify.SubTasks.{count_inserted, AllSettled, IsPlain, breaks_off, Settles}
use open_supervisor.Verify.Sync.{is_empty}
use open_supervisor.Verify.Todos.{count_from, count_matches, incomplete_box}
use open_supervisor.Prelude.{
  subst, All, List, any, ap₂, Bool, ◌<◌, ◌∙◌, sym, true, ap, length-append, none, ◌-◌, inr, some,
  inl, if◌then◌else◌, Bool-cases, false, refl, [], arith, ◌++◌, ◌≤◌, ◌∷◌, ◌&&◌, ◌≡◌, length, ◌==◌,
  ◌+◌, Option, ℕ,
}
use open_supervisor.Todos.Text.{
  join, insert_sub_task, includes, split, box, indent, sub_task_line, is_space, Text,
}
use open_supervisor.Verify.Checklist.{is_terminator, is_bullet, after, skip_spaces, ◌>>=◌}

skip_spaces-append :
    (s r : Text) (d : ℕ) (t : Text) → skip_spaces s ≡ d ∷ t → skip_spaces (s ++ r) ≡ d ∷ (t ++ r)
skip_spaces-append [] r d t e = cc
skip_spaces-append (c ∷ s) r d t e = elim (Bool-cases (is_space c)) [
  | inl blank ↦ rw blank (skip_spaces-append s r d t (rw blank at e))
  | inr ink ↦ rw ink (ap (λ x. x ++ r) (rw ink at e))
]

length-skip_spaces : (s : Text) → length (skip_spaces s) ≤ length s
length-skip_spaces [] = omega arith
length-skip_spaces (c ∷ s) = ground (arith, length-skip_spaces s)

-- The match after the bullet, from the first character that is no space on.
closed : ℕ → Text → Option ℕ
closed total u = after (93 ∷ []) u >>= λ v. some (total - length v)

opened : ℕ → Text → Option ℕ
opened total u = after (91 ∷ []) u >>= λ t. closed total (skip_spaces t)

incomplete_box-cons :
    (c : ℕ) (s : Text)
    → incomplete_box (c ∷ s)
      ≡ (if is_bullet c then opened (length (c ∷ s)) (skip_spaces s) else none)
unfolding opened closed
incomplete_box-cons c s = elim (Bool-cases (is_bullet c)) [
  | inl bullet ↦ rw bullet refl
  | inr other ↦ rw other refl
]

closed-append :
    (total e : ℕ) (v r : Text) → closed (total + length r) ((e ∷ v) ++ r) ≡ closed total (e ∷ v)
unfolding closed
closed-append total e v r = elim (Bool-cases (93 == e)) [
  | inl ends ↦
      let same : total + length r - length (v ++ r) ≡ total - length v =
        omega (arith, length-append v r) in
      rw (ends, same) refl
  | inr other ↦ rw other refl
]

opened-append :
    (total d : ℕ) (t r : Text)
    → ((d == 91) && is_empty (skip_spaces t)) ≡ false
    → opened (total + length r) ((d ∷ t) ++ r) ≡ opened total (d ∷ t)
unfolding opened
opened-append total d t r h = elim (Bool-cases (91 == d)) [
  | inl opens ↦ rw opens (by_rest opens (skip_spaces t) refl)
  | inr other ↦ rw other refl
]
  where
    by_rest :
        (91 == d) ≡ true
        → (u : Text) → skip_spaces t ≡ u
        → closed (total + length r) (skip_spaces (t ++ r)) ≡ closed total (skip_spaces t)
    by_rest opens [] e =
        let bracket : (d == 91) ≡ true = ground (arith, opens) in
        cc (sym h ∙ ap₂ ◌&&◌ bracket (ap is_empty e))
    by_rest opens (x ∷ v) e = rw (skip_spaces-append t r x v e, e) (closed-append total x v r)

closed_bounded : (total n : ℕ) (u : Text) → closed total u ≡ some n → n ≤ total
unfolding closed
closed_bounded total n [] e = cc e
closed_bounded total n (x ∷ v) e = elim (Bool-cases (93 == x)) [
  | inl ends ↦ let f : some (total - length v) ≡ some n = rw ends at e in ground (arith, f)
  | inr other ↦ cc (rw other at e)
]

opened_bounded : (total n : ℕ) (u : Text) → opened total u ≡ some n → n ≤ total
unfolding opened
opened_bounded total n [] e = cc e
opened_bounded total n (d ∷ t) e = elim (Bool-cases (91 == d)) [
  | inl opens ↦ closed_bounded total n (skip_spaces t) (rw opens at e)
  | inr other ↦ cc (rw other at e)
]

no_bullet : (c : ℕ) (s : Text) → is_bullet c ≡ false → incomplete_box (c ∷ s) ≡ none
no_bullet c s other = rw other refl

no_bullet-Settles : (c : ℕ) (s : Text) → is_bullet c ≡ false → Settles incomplete_box (c ∷ s)
unfolding Settles
no_bullet-Settles c s other = (
  λ r. no_bullet c (s ++ (10 ∷ r)) other ∙ sym (no_bullet c s other),
  λ n e. cc (sym e ∙ no_bullet c s other),
  refl,
)

-- A line that does not stop within a box is matched in the same way whatever follows.
incomplete_box-Settles : (l : Text) → breaks_off l ≡ false → Settles incomplete_box l
unfolding Settles
incomplete_box-Settles [] h = (λ r. refl, λ n e. cc e, refl)
incomplete_box-Settles (c ∷ s) h = elim (Bool-cases (is_bullet c)) [
  | inr other ↦ no_bullet-Settles c s other
  | inl bullet ↦ (λ r. by_rest bullet (skip_spaces s) refl r, λ n e. bounded bullet n e, refl)
]
  where
    at_bullet :
        is_bullet c ≡ true
        → (t : Text) → incomplete_box (c ∷ t) ≡ opened (length (c ∷ t)) (skip_spaces t)
    at_bullet bullet t =
        incomplete_box-cons c t
        ∙ ap (λ b. if b then opened (length (c ∷ t)) (skip_spaces t) else none) bullet

    bounded :
        is_bullet c ≡ true → (n : ℕ) → incomplete_box (c ∷ s) ≡ some n → n - 1 < length (c ∷ s)
    bounded bullet n e =
        omega
          (arith, opened_bounded (length (c ∷ s)) n (skip_spaces s) (sym (at_bullet bullet s) ∙ e))

    by_rest :
        is_bullet c ≡ true
        → (u : Text) → skip_spaces s ≡ u
        → (r : Text) → incomplete_box ((c ∷ s) ++ (10 ∷ r)) ≡ incomplete_box (c ∷ s)
    by_rest bullet [] e r = cc (sym h ∙ ap (λ u. broken u) e)
      where
        broken : Text → Bool
        broken u = elim u [ [] ↦ true | d ∷ t ↦ (d == 91) && is_empty (skip_spaces t) ]
    by_rest bullet (d ∷ t) e r =
        let long : length (c ∷ (s ++ (10 ∷ r))) ≡ length (c ∷ s) + length (10 ∷ r) =
          omega (arith, length-append s (10 ∷ r)) in
        at_bullet bullet (s ++ (10 ∷ r))
        ∙ ap₂ opened long (skip_spaces-append s (10 ∷ r) d t e)
        ∙ opened-append (length (c ∷ s)) d t (10 ∷ r) (ap broken (sym e) ∙ h)
        ∙ ap (opened (length (c ∷ s))) (sym e)
        ∙ sym (at_bullet bullet s)
      where
        broken : Text → Bool
        broken u = elim u [ [] ↦ true | x ∷ y ↦ (x == 91) && is_empty (skip_spaces y) ]

-- A line without other line ends that does not stop within a box.
abbrev pub IsTidy : Text → Type 0
IsTidy l = (any is_terminator l ≡ false) × (breaks_off l ≡ false)

tidy-AllSettled : (lines : List Text) → All IsTidy lines → AllSettled incomplete_box lines
unfolding AllSettled IsPlain
tidy-AllSettled [] h = tt
tidy-AllSettled (l ∷ lines) h = ((h.0.0, incomplete_box-Settles l h.0.1), tidy-AllSettled lines h.1)

append-IsPlain : (s t : Text) → IsPlain s → IsPlain t → IsPlain (s ++ t)
unfolding IsPlain
append-IsPlain [] t h k = k
append-IsPlain (c ∷ s) t h k = elim (Bool-cases (is_terminator c)) [
  | inl ends ↦ cc (rw ends at h)
  | inr more ↦ rw more (append-IsPlain s t (rw more at h) k)
]

indent-IsPlain : (s : Text) → IsPlain s → IsPlain (indent s)
unfolding IsPlain
indent-IsPlain [] h = refl
indent-IsPlain (c ∷ s) h = elim (Bool-cases (is_space c)) [
  | inl blank ↦ elim (Bool-cases (is_terminator c)) [
    | inl ends ↦ cc (rw ends at h)
    | inr more ↦ rw (blank, more) (indent-IsPlain s (rw more at h))
  ]
  | inr ink ↦ rw ink refl
]

space_no_bullet : (c : ℕ) → is_space c ≡ true → is_bullet c ≡ false
space_no_bullet c h = ground (arith, h)

indent-head : (line : Text) (c : ℕ) (s : Text) → indent line ≡ c ∷ s → is_bullet c ≡ false
indent-head [] c s e = cc e
indent-head (d ∷ line) c s e = elim (Bool-cases (is_space d)) [
  | inl blank ↦
      let f : d ∷ indent line ≡ c ∷ s = rw blank at e in
      let same : d ≡ c = ground (arith, f) in
      subst (λ x. is_bullet x ≡ false) same (space_no_bullet d blank)
  | inr ink ↦ cc (rw ink at e)
]

-- A new task starts with a space, so it is never counted.
abbrev below : Text → Text → Text
below text i = (i ++ (32 ∷ 32 ∷ 45 ∷ 32 ∷ box 32)) ++ (32 ∷ text)

new_line :
    (text line i : Text)
    → indent line ≡ i
    → Settles incomplete_box (below text i) × (incomplete_box (below text i) ≡ none)
new_line text line [] e =
    (no_bullet-Settles 32 _ refl, no_bullet 32 ((32 ∷ 45 ∷ 32 ∷ box 32) ++ (32 ∷ text)) refl)
new_line text line (c ∷ s) e =
    let other = indent-head line c s e in
    (
      no_bullet-Settles c _ other,
      no_bullet c ((s ++ (32 ∷ 32 ∷ 45 ∷ 32 ∷ box 32)) ++ (32 ∷ text)) other,
    )

-- A task that addSubTask puts below its parent is not counted as an incomplete todo by the verification,
-- if its text has no line end, and no line up to the parent has an odd line end or stops within a box.
pub count-insert_sub_task :
    (parent text content : Text) (before : List Text) (line : Text) (after : List Text)
    → any is_terminator text ≡ false
    → split content ≡ before ++ (line ∷ after)
    → any (includes parent) before ≡ false
    → includes parent line ≡ true
    → All IsTidy before
    → IsTidy line
    → count_matches incomplete_box (insert_sub_task parent text content)
      ≡ count_matches incomplete_box content
unfolding count_matches IsPlain
count-insert_sub_task parent text content before line after plain e none_before here tidy
      tidy_line =
    let new = new_line text line (indent line) refl in
    let whole =
      split-insert_sub_task parent text content before line after (no_newline text plain) e
        none_before here in
    ap (count_from incomplete_box true 0)
      (sym (join-split (insert_sub_task parent text content)) ∙ ap join whole)
    ∙ count_inserted incomplete_box before line (sub_task_line text line) after
        (tidy-AllSettled before tidy) tidy_line.0 (incomplete_box-Settles line tidy_line.1)
        (append-IsPlain (indent line ++ (32 ∷ 32 ∷ 45 ∷ 32 ∷ box 32)) (32 ∷ text)
          (append-IsPlain (indent line) (32 ∷ 32 ∷ 45 ∷ 32 ∷ box 32)
            (indent-IsPlain line tidy_line.0) refl)
          plain)
        new.0 new.1
    ∙ ap (count_from incomplete_box true 0) (ap join (sym e) ∙ join-split content)
  where
    no_newline : (s : Text) → any is_terminator s ≡ false → has_newline s ≡ false
    no_newline [] h = refl
    no_newline (c ∷ s) h = elim (Bool-cases (is_terminator c)) [
      | inl ends ↦ cc (rw ends at h)
      | inr more ↦ ground (arith, more, no_newline s (rw more at h))
    ]
