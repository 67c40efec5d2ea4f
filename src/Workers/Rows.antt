-- ===== src/Workers/Rows.antt =====
-- src/core/queue/worker-pool.ts: the deques of the workers stand for a list of lists.
use Prim.Native.Nat.{zero}
use open_supervisor.Prelude.{
  subst, length-replicate, replicate, refl, inr, ap, inl, [], suc, ◌∷◌, sym, arith, ◌⊎◌, ◌%◌, some,
  ◌∙◌, ◌≡◌, ◌+◌, length-set, length, ◌≢◌, ◌<◌, ◌≤◌, get_elem?, set, ℕ, List,
}
use open_supervisor.Deque
use open_supervisor.Deque.Refine.{Holds}

module _ {ℓ} {A : Type ℓ} where
  set_cases :
      (xs : List A) (i j : ℕ) (v w : A)
      → get_elem? (set xs i v) j ≡ some w
      → ((i ≡ j) × (w ≡ v)) ⊎ ((i ≢ j) × (get_elem? xs j ≡ some w))
  set_cases [] i j v w e = cc
  set_cases (x ∷ xs) zero zero v w e = inl (refl, ground (arith, e))
  set_cases (x ∷ xs) zero (suc j) v w e = inr (λ h. cc h, e)
  set_cases (x ∷ xs) (suc i) zero v w e = inr (λ h. cc h, e)
  set_cases (x ∷ xs) (suc i) (suc j) v w e = elim (set_cases xs i j v w e) [
    | inl (h, k) ↦ inl (ap suc h, k)
    | inr (h, k) ↦ inr (λ q. h (omega (arith, q)), k)
  ]

  pub set_same : (xs : List A) (i : ℕ) (v : A) → get_elem? xs i ≡ some v → set xs i v ≡ xs
  set_same [] i v e = cc
  set_same (x ∷ xs) zero v e = ap (λ y. y ∷ xs) (sym (ground (arith, e)))
  set_same (x ∷ xs) (suc i) v e = ap (◌∷◌ x) (set_same xs i v e)

  pub get-some : (xs : List A) (i : ℕ) → i < length xs → (a : A) × (get_elem? xs i ≡ some a)
  get-some [] i h = absurd (omega arith)
  get-some (x ∷ xs) zero h = (x, refl)
  get-some (x ∷ xs) (suc i) h = get-some xs i (omega arith)

  pub get-lt : (xs : List A) (i : ℕ) (a : A) → get_elem? xs i ≡ some a → i < length xs
  get-lt [] i a e = cc
  get-lt (x ∷ xs) zero a e = omega arith
  get-lt (x ∷ xs) (suc i) a e = omega (arith, get-lt xs i a e)

module _ {ℓ} {A : Type ℓ} where
  -- Each deque holds its row.
  pub record Rows (ds : List (Deque.Deque A)) (xss : List (List A)) : Type ℓ where
    pub sized : length ds ≡ length xss
    pub held :
        (i : ℕ) (d : Deque.Deque A) (xs : List A)
        → get_elem? ds i ≡ some d
        → get_elem? xss i ≡ some xs
        → Holds d xs

  pub set-Rows :
      (ds : List (Deque.Deque A)) (xss : List (List A)) (i : ℕ) (d : Deque.Deque A) (xs : List A)
      → Rows ds xss
      → Holds d xs
      → Rows (set ds i d) (set xss i xs)
  set-Rows ds xss i d xs h k = record {
    sized = length-set ds i d ∙ h.sized ∙ sym (length-set xss i xs);
    held = λ j e ys p q. elim (set_cases ds i j d e p) [
      | inl (same, e1) ↦ elim (set_cases xss i j xs ys q) [
        | inl (_, e2) ↦ rw (e1, e2) k
        | inr (apart, _) ↦ absurd (apart same)
      ]
      | inr (apart, old) ↦ elim (set_cases xss i j xs ys q) [
        | inl (same, _) ↦ absurd (apart same)
        | inr (_, old2) ↦ h.held j e ys old old2
      ]
    ];
  }

  -- What a steal loop gives for the rounds `i` up to `i + left`.
  pub record NoneFound (thief begin i left : ℕ) (ds : List (Deque.Deque A)) (xss : List (List A))
      : Type ℓ where
    pub rows : Rows ds xss
    pub empties :
        (k : ℕ)
        → i ≤ k
        → k < i + left
        → ((begin + k) % length xss ≡ thief) ⊎ (get_elem? xss ((begin + k) % length xss) ≡ some [])

  pub record Stolen (thief : ℕ) (item : A) (ds : List (Deque.Deque A)) (xss : List (List A))
      : Type ℓ where
    pub victim : ℕ
    pub rest : List A
    pub other : victim ≢ thief
    pub there : get_elem? xss victim ≡ some (item ∷ rest)
    pub rows : Rows ds (set xss victim rest)

module _ {ℓ} {A : Type ℓ} where
  get-replicate : (n i : ℕ) (a b : A) → get_elem? (replicate n a) i ≡ some b → a ≡ b
  get-replicate zero i a b e = cc
  get-replicate (suc n) zero a b e = ground (arith, e)
  get-replicate (suc n) (suc i) a b e = get-replicate n i a b e

module _ {ℓ} {A : Type ℓ} where
  pub replicate-Rows :
      (n : ℕ) (d : Deque.Deque A) → Holds d [] → Rows (replicate n d) (replicate n [])
  replicate-Rows n d h = record {
    sized = length-replicate n d ∙ sym (length-replicate n []);
    held = λ i e xs p q.
        subst (λ x. Holds x xs) (get-replicate n i d e p)
          (subst (Holds d) (get-replicate n i [] xs q) h);
  }
