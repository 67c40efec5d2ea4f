-- ===== src/Work/Indexed.antt =====
-- src/core/queue/work-pool.ts: lists of work with indices.
use Prim.Native.Nat.{zero}
use mathlib.Core.List.{reverse-append}
use open_supervisor.Work.Crew.{with_index, remove_at}
use open_supervisor.Prelude.{
  none, ◌≤◌, ◌<◌, All-append, ◌==◌, false, Bool-cases, Bool, reverse, ◌+◌, ◌||◌, true, refl, ◌∙◌,
  arith, ap, sym, length, ap₂, inl, subst, ◌⊎◌, suc, [], some, inr, ◌≡◌, get_elem?, ◌++◌, All, ◌∷◌,
  List, ℕ,
}

module _ {ℓ} {A : Type ℓ} where
  -- Whether the work with an index stands in a list.
  abbrev pub has : ℕ → List (ℕ × A) → Bool
  has i [] = false
  has i (w ∷ ws) = (w.0 == i) || has i ws

  has-append : (i : ℕ) (xs ys : List (ℕ × A)) → has i (xs ++ ys) ≡ (has i xs || has i ys)
  has-append i [] ys = refl
  has-append i (x ∷ xs) ys = ground (arith, has-append i xs ys)

  pub has-reverse : (i : ℕ) (xs : List (ℕ × A)) → has i (reverse xs) ≡ has i xs
  has-reverse i [] = refl
  has-reverse i (x ∷ xs) =
      ap (has i) (reverse-append (x ∷ []) xs)
      ∙ has-append i (reverse xs) (x ∷ [])
      ∙ ground (arith, has-reverse i xs)

  pub has-with_index :
      (k i : ℕ) (items : List A) (a : A)
      → get_elem? items i ≡ some a
      → has (k + i) (with_index k items) ≡ true
  has-with_index k i [] a e = cc
  has-with_index k zero (x ∷ items) a e = ground arith
  has-with_index k (suc i) (x ∷ items) a e = ground (arith, has-with_index (suc k) i items a e)

  pub has-remove_at :
      (j i : ℕ) (ws : List (ℕ × A)) (w : ℕ × A)
      → get_elem? ws i ≡ some w
      → has j ws ≡ true
      → (w.0 ≡ j) ⊎ (has j (remove_at i ws) ≡ true)
  has-remove_at j i [] w e h = cc
  has-remove_at j zero (x ∷ ws) w e h =
      let same : x ≡ w = ground (arith, e) in
      elim (Bool-cases (x.0 == j)) [
        | inl hit ↦ inl (ap (λ v. v.0) (sym same) ∙ ground (arith, hit))
        | inr miss ↦ inr (rw miss at h)
      ]
  has-remove_at j (suc i) (x ∷ ws) w e h = elim (Bool-cases (x.0 == j)) [
    | inl hit ↦ inr (rw hit refl)
    | inr miss ↦ elim (has-remove_at j i ws w e (rw miss at h)) [
      | inl here ↦ inl here
      | inr there ↦ inr (rw miss there)
    ]
  ]

  pub length-remove_at :
      (i : ℕ) (xs : List A) (b : A)
      → get_elem? xs i ≡ some b
      → length xs ≡ suc (length (remove_at i xs))
  length-remove_at i [] b e = cc
  length-remove_at zero (x ∷ xs) b e = refl
  length-remove_at (suc i) (x ∷ xs) b e = ap suc (length-remove_at i xs b e)

  pub All-remove_at {κ} : (P : A → Type κ) (i : ℕ) (xs : List A) → All P xs → All P (remove_at i xs)
  All-remove_at P i [] h = h
  All-remove_at P zero (x ∷ xs) h = h.1
  All-remove_at P (suc i) (x ∷ xs) h = (h.0, All-remove_at P i xs h.1)

  pub All-get {κ} :
      (P : A → Type κ) (i : ℕ) (xs : List A) (a : A) → get_elem? xs i ≡ some a → All P xs → P a
  All-get P i [] a e h = cc
  All-get P zero (x ∷ xs) a e h = subst P (ground (arith, e)) h.0
  All-get P (suc i) (x ∷ xs) a e h = All-get P i xs a e h.1

  pub list_ext : (xs ys : List A) → ((i : ℕ) → get_elem? xs i ≡ get_elem? ys i) → xs ≡ ys
  list_ext [] [] h = refl
  list_ext [] (y ∷ ys) h = cc (h 0)
  list_ext (x ∷ xs) [] h = cc (h 0)
  list_ext (x ∷ xs) (y ∷ ys) h = ap₂ ◌∷◌ (ground (arith, h 0)) (list_ext xs ys (λ i. h (suc i)))

  -- Each piece of work is the item of its index.
  abbrev pub Drawn : List A → List (ℕ × A) → Type ℓ
  Drawn items = All (λ (w : ℕ × A). get_elem? items w.0 ≡ some w.1)

  pub Drawn-with_index :
      (items : List A) (k : ℕ) (rest : List A)
      → ((i : ℕ) → get_elem? items (k + i) ≡ get_elem? rest i)
      → Drawn items (with_index k rest)
  Drawn-with_index items k [] h = tt
  Drawn-with_index items k (x ∷ rest) h = (
    ap (get_elem? items) (before k) ∙ h 0,
    Drawn-with_index items (suc k) rest (λ i. ap (get_elem? items) (after k i) ∙ h (suc i)),
  )
    where
      before : (k : ℕ) → k ≡ k + 0
      before k = omega arith

      after : (k i : ℕ) → suc k + i ≡ k + suc i
      after k i = omega arith

  pub All-reverse {κ} : (P : A → Type κ) (xs : List A) → All P xs → All P (reverse xs)
  All-reverse P [] h = tt
  All-reverse P (x ∷ xs) h =
      subst (All P) (sym (reverse-append (x ∷ []) xs))
        (All-append P (reverse xs) (x ∷ []) (All-reverse P xs h.1) (h.0, tt))

  pub get-lt : (xs : List A) (i : ℕ) (a : A) → get_elem? xs i ≡ some a → i < length xs
  get-lt [] i a e = cc
  get-lt (x ∷ xs) zero a e = omega arith
  get-lt (x ∷ xs) (suc i) a e = omega (arith, get-lt xs i a e)

  pub get-ge : (xs : List A) (i : ℕ) → get_elem? xs i ≡ none → length xs ≤ i
  get-ge [] i e = omega arith
  get-ge (x ∷ xs) zero e = cc
  get-ge (x ∷ xs) (suc i) e = omega (arith, get-ge xs i e)

  pub ge-get : (xs : List A) (i : ℕ) → length xs ≤ i → get_elem? xs i ≡ none
  ge-get [] i h = refl
  ge-get (x ∷ xs) zero h = absurd (omega arith)
  ge-get (x ∷ xs) (suc i) h = ge-get xs i (omega arith)
