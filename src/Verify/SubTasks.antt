-- ===== src/Verify/SubTasks.antt =====
-- src/core/loop/verification.ts and src/core/todo/todo-manager.ts: an indented task is not counted.
use open_supervisor.Verify.Sync.{is_empty}
use Prim.Native.Nat.{zero}
use open_supervisor.Verify.Checklist.{is_terminator, skip_spaces}
use open_supervisor.Verify.Todos.{count_from}
use open_supervisor.Todos.Text.{join, Text}
use open_supervisor.Prelude.{
  All, sym, ◌∙◌, ap₂, List, refl, arith, ◌<◌, inr, ◌&&◌, ap, suc, ◌-◌, ◌==◌, inl, ◌+◌, none, length,
  ◌≡◌, Bool-cases, some, any, false, ◌++◌, ◌∷◌, true, ◌≤◌, [], Bool, Option, ℕ,
}

-- No character of a text ends a line.
unfoldable pub IsPlain : Text → Type 0
IsPlain s = any is_terminator s ≡ false

-- Whether a line stops within a box, so that the expression goes on in the next line.
abbrev pub breaks_off : Text → Bool
breaks_off [] = false
breaks_off (c ∷ s) = elim (skip_spaces s) [
  | [] ↦ true
  | d ∷ t ↦ (d == 91) && is_empty (skip_spaces t)
]

IsPlain-tail : (c : ℕ) (s : Text) → IsPlain (c ∷ s) → IsPlain s
unfolding IsPlain
IsPlain-tail c s h = elim (Bool-cases (is_terminator c)) [
  | inl ends ↦ cc (rw ends at h)
  | inr more ↦ rw more at h
]

plain-head : (c : ℕ) (s : Text) → IsPlain (c ∷ s) → is_terminator c ≡ false
unfolding IsPlain
plain-head c s h = elim (Bool-cases (is_terminator c)) [
  | inl ends ↦ cc (rw ends at h)
  | inr more ↦ more
]

-- Within a line nothing is counted before its end.
count-plain :
    (m : Text → Option ℕ) (skip : ℕ) (l r : Text)
    → IsPlain l
    → skip ≤ length l
    → count_from m false skip (l ++ (10 ∷ r)) ≡ count_from m true 0 r
unfolding count_from
count-plain m zero [] r h le = refl
count-plain m (suc k) [] r h le = absurd (omega (arith, le))
count-plain m zero (c ∷ l) r h le =
    ap (λ b. count_from m b 0 (l ++ (10 ∷ r))) (plain-head c l h)
    ∙ count-plain m 0 l r (IsPlain-tail c l h) (omega arith)
count-plain m (suc k) (c ∷ l) r h le =
    ap (λ b. count_from m b k (l ++ (10 ∷ r))) (plain-head c l h)
    ∙ count-plain m k l r (IsPlain-tail c l h) (omega (arith, le))

count-plain_end :
    (m : Text → Option ℕ) (skip : ℕ) (l : Text) → IsPlain l → count_from m false skip l ≡ 0
unfolding count_from
count-plain_end m zero [] h = refl
count-plain_end m (suc k) [] h = refl
count-plain_end m zero (c ∷ l) h =
    ap (λ b. count_from m b 0 l) (plain-head c l h) ∙ count-plain_end m 0 l (IsPlain-tail c l h)
count-plain_end m (suc k) (c ∷ l) h =
    ap (λ b. count_from m b k l) (plain-head c l h) ∙ count-plain_end m k l (IsPlain-tail c l h)

abbrev hit : Option ℕ → ℕ
hit none = 0
hit (some n) = 1

-- A pattern that matches a line in the same way whatever follows it.
unfoldable pub Settles : (Text → Option ℕ) → Text → Type 0
Settles m l =
    ((r : Text) → m (l ++ (10 ∷ r)) ≡ m l)
    × ((n : ℕ) → m l ≡ some n → n - 1 < length l)
    × (m [] ≡ none)

-- The count from a line start, on what the pattern says of it.
counted : (Text → Option ℕ) → Bool → Text → Option ℕ → ℕ
counted m b s none = count_from m b 0 s
counted m b s (some n) = suc (count_from m b (n - 1) s)

count-cons :
    (m : Text → Option ℕ) (c : ℕ) (s : Text) (o : Option ℕ) (b : Bool)
    → m (c ∷ s) ≡ o
    → is_terminator c ≡ b
    → count_from m true 0 (c ∷ s) ≡ counted m b s o
unfolding count_from counted
count-cons m c s o b e t = ap₂ (λ x y. both x y) e t ∙ by_result o
  where
    both : Option ℕ → Bool → ℕ
    both x y = elim x [ none ↦ count_from m y 0 s | some n ↦ suc (count_from m y (n - 1) s) ]

    by_result : (x : Option ℕ) → both x b ≡ counted m b s x
    by_result none = refl
    by_result (some n) = refl

count_line :
    (m : Text → Option ℕ) (l r : Text)
    → IsPlain l
    → Settles m l
    → count_from m true 0 (l ++ (10 ∷ r)) ≡ hit (m l) + count_from m true 0 r
unfolding Settles counted
count_line m [] r h s =
    let none_left : hit (m []) ≡ 0 = ap hit s.2 in
    count-cons m 10 r none true (s.0 r ∙ s.2) refl ∙ omega (arith, none_left)
count_line m (c ∷ l) r h s =
    count-cons m c (l ++ (10 ∷ r)) (m (c ∷ l)) false (s.0 r) (plain-head c l h)
    ∙ by_match (m (c ∷ l)) refl
  where
    by_match :
        (o : Option ℕ)
        → m (c ∷ l) ≡ o
        → counted m false (l ++ (10 ∷ r)) o ≡ hit o + count_from m true 0 r
    by_match none e = omega (arith, count-plain m 0 l r (IsPlain-tail c l h) (omega arith))
    by_match (some n) e =
        omega (arith, count-plain m (n - 1) l r (IsPlain-tail c l h) (omega (arith, s.1 n e)))

count_last :
    (m : Text → Option ℕ) (l : Text) → IsPlain l → m [] ≡ none → count_from m true 0 l ≡ hit (m l)
unfolding count_from counted
count_last m [] h e = ap hit (sym e)
count_last m (c ∷ l) h e =
    count-cons m c l (m (c ∷ l)) false refl (plain-head c l h) ∙ by_match (m (c ∷ l))
  where
    by_match : (o : Option ℕ) → counted m false l o ≡ hit o
    by_match none = count-plain_end m 0 l (IsPlain-tail c l h)
    by_match (some n) = ap suc (count-plain_end m (n - 1) l (IsPlain-tail c l h))

-- All lines but the last one are plain and settled.
unfoldable pub AllSettled : (Text → Option ℕ) → List Text → Type 0
AllSettled m = All (λ l. IsPlain l × Settles m l)

-- A line that the pattern does not match can be put in or taken out below a settled line.
pub count_inserted :
    (m : Text → Option ℕ) (before : List Text) (line new : Text) (after : List Text)
    → AllSettled m before
    → IsPlain line
    → Settles m line
    → IsPlain new
    → Settles m new
    → m new ≡ none
    → count_from m true 0 (join (before ++ (line ∷ new ∷ after)))
      ≡ count_from m true 0 (join (before ++ (line ∷ after)))
unfolding AllSettled join Settles
count_inserted m [] line new [] s pl sl pn sn e =
    let gone : hit (m new) ≡ 0 = ap hit e in
    count_line m line new pl sl
    ∙ omega (arith, count_last m new pn sn.2, count_last m line pl sl.2, gone)
count_inserted m [] line new (next ∷ after) s pl sl pn sn e =
    let gone : hit (m new) ≡ 0 = ap hit e in
    let rest : Text = join (next ∷ after) in
    omega (
      arith,
      count_line m line (new ++ (10 ∷ rest)) pl sl,
      count_line m new rest pn sn,
      count_line m line rest pl sl,
      gone,
    )
count_inserted m (b ∷ []) line new after s pl sl pn sn e =
    count_line m b (join (line ∷ new ∷ after)) s.0.0 s.0.1
    ∙ ap (λ k. hit (m b) + k) (count_inserted m [] line new after tt pl sl pn sn e)
    ∙ sym (count_line m b (join (line ∷ after)) s.0.0 s.0.1)
count_inserted m (b ∷ c ∷ before) line new after s pl sl pn sn e =
    count_line m b (join (c ∷ before ++ (line ∷ new ∷ after))) s.0.0 s.0.1
    ∙ ap (λ k. hit (m b) + k) (count_inserted m (c ∷ before) line new after s.1 pl sl pn sn e)
    ∙ sym (count_line m b (join (c ∷ before ++ (line ∷ after))) s.0.0 s.0.1)
