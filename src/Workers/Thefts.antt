-- ===== src/Workers/Thefts.antt =====
-- src/core/queue/worker-pool.ts: what the loop of `trySteal` takes.
use Prim.Native.Nat.{zero}
use open_supervisor.Workers.Rows.{set-Rows, set_same, get-some, Stolen, NoneFound, Rows}
use open_supervisor.Deque.{WorkItem}
use open_supervisor.Workers.{steal_at, steal_from}
use open_supervisor.Prelude.{
  ◌-◌, dec_lt, ◌∷◌, refl, subst, set, ◌∙◌, ◌≢◌, sym, ◌==◌, Bool-cases, inr, ℕ_discrete, ap, [], suc,
  get_elem?, arith, some, ◌⊎◌, inl, ◌%◌, none, length, ◌<◌, ◌+◌, ◌≡◌, Option, List, ℕ,
}
use open_supervisor.Deque
use open_supervisor.Deque.Refine.{Holds, pop-empty, steal-Holds}
use native.Mathlib.Nat.{mod-lt, mod-eq_of_lt, add-mod_right}

-- Some round of the loop comes to every worker.
pub visited : (begin v n : ℕ) → begin < n → v < n → (k : ℕ) × (k < n) × ((begin + k) % n ≡ v)
visited begin v n b h = elim (dec_lt v begin) [
  | no le ↦
      let e : begin + (v - begin) ≡ v = omega arith in
      (v - begin, omega arith, ap (λ x. x % n) e ∙ mod-eq_of_lt h)
  | yes lt ↦
      let e : begin + (v + n - begin) ≡ v + n = omega arith in
      (v + n - begin, omega arith, ap (λ x. x % n) e ∙ add-mod_right v n ∙ mod-eq_of_lt h)
]

module _ {ℓ} {T : Type ℓ} where
  abbrev pub Steals :
      ℕ
      → ℕ
      → ℕ
      → ℕ
      → List (List (WorkItem T))
      → List (Deque.Deque (WorkItem T)) × Option (WorkItem T)
      → Type ℓ
  Steals thief begin i left xss r =
      ((r.1 ≡ none) × NoneFound thief begin i left r.0 xss)
      ⊎ ((item : WorkItem T) × (r.1 ≡ some item) × Stolen thief item r.0 xss)

  widened :
      (thief begin i left : ℕ) (xss : List (List (WorkItem T)))
      (r : List (Deque.Deque (WorkItem T)) × Option (WorkItem T))
      → ((begin + i) % length xss ≡ thief) ⊎ (get_elem? xss ((begin + i) % length xss) ≡ some [])
      → Steals thief begin (i + 1) left xss r
      → Steals thief begin i (suc left) xss r
  widened thief begin i left xss r here (inl (e, h)) = inl (
    e,
    record {
      rows = h.rows;
      empties = λ k a b. elim (ℕ_discrete i k) [
        | yes same ↦ rw (← same) here
        | no apart ↦ h.empties k (omega arith) (omega arith)
      ];
    },
  )
  widened thief begin i left xss r here (inr s) = inr s

  -- A round at a victim, for the rest of the loop.
  abbrev after_steal :
      ℕ
      → ℕ
      → ℕ
      → ℕ
      → List (Deque.Deque (WorkItem T)) × Option (WorkItem T)
      → List (Deque.Deque (WorkItem T)) × Option (WorkItem T)
  after_steal thief begin left i r = elim r.1 [
    | none ↦ steal_from thief begin left (i + 1) r.0
    | some item ↦ (r.0, some item)
  ]

  on_row :
      (thief begin left i : ℕ) (ds : List (Deque.Deque (WorkItem T)))
      (xss : List (List (WorkItem T)))
      → Rows ds xss
      → (v : ℕ) (d : Deque.Deque (WorkItem T)) (xs : List (WorkItem T)) → get_elem? ds v ≡ some d
      → get_elem? xss v ≡ some xs
      → v ≡ (begin + i) % length xss
      → v ≢ thief
      → ((es : List (Deque.Deque (WorkItem T)))
          → Rows es xss
          → Steals thief begin (i + 1) left xss (steal_from thief begin left (i + 1) es))
      → Steals thief begin i
          (suc left)
          xss
          (after_steal thief begin left i (set ds v (Deque.steal d).0, (Deque.steal d).1))
  on_row thief begin left i ds xss h v d [] at row e apart rest =
      let empty : Holds d [] = h.held v d [] at row in
      let gone = pop-empty d empty in
      let kept : Rows (set ds v (Deque.steal d).0) xss =
        subst (Rows (set ds v (Deque.steal d).0)) (set_same xss v [] row)
          (set-Rows ds xss v (Deque.steal d).0 [] h gone.3) in
      rw gone.2
        (widened thief begin i left xss _ (inr (ap (get_elem? xss) (sym e) ∙ row)) (rest _ kept))
  on_row thief begin left i ds xss h v d (x ∷ xs) at row e apart rest =
      let (got, left_over) = steal-Holds d x xs (h.held v d (x ∷ xs) at row) in
      rw got (
        inr (
          x,
          refl,
          record {
            victim = v;
            rest = xs;
            other = apart;
            there = row;
            rows = set-Rows ds xss v (Deque.steal d).0 xs h left_over;
          },
        ))

  pub steal_from-Steals :
      (thief begin left i : ℕ) (ds : List (Deque.Deque (WorkItem T)))
      (xss : List (List (WorkItem T)))
      → Rows ds xss
      → 0 < length xss
      → Steals thief begin i left xss (steal_from thief begin left i ds)
  unfolding steal_from
  steal_from-Steals thief begin zero i ds xss h n =
      inl (refl, record { rows = h; empties = λ k a b. absurd (omega arith) })
  steal_from-Steals thief begin (suc left) i ds xss h n =
      let v : ℕ = (begin + i) % length ds in
      let same : (begin + i) % length ds ≡ (begin + i) % length xss =
        ap (λ k. (begin + i) % k) h.sized in
      let lt : v < length ds = mod-lt (begin + i) (omega (arith, n, h.sized)) in
      let (d, at) = get-some ds v lt in
      let (xs, row) = get-some xss v (omega (arith, lt, h.sized)) in
      elim (Bool-cases (v == thief)) [
        | inl self ↦ rw self (
            widened thief begin i left xss _ (inl (sym same ∙ ground (arith, self)))
              (steal_from-Steals thief begin left (i + 1) ds xss h n))
        | inr other ↦ rw other (
            subst
              (λ o.
                Steals thief begin i (suc left) xss
                  (after_steal thief begin left i (steal_at v o ds)))
              (sym at)
              (on_row thief begin left i ds xss h v d xs at row same (ground (arith, other))
                (λ es k. steal_from-Steals thief begin left (i + 1) es xss k n)))
      ]
