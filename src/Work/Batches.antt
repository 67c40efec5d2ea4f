-- ===== src/Work/Batches.antt =====
-- src/core/queue/work-pool.ts: processBatches, for a function that does not throw. Fuel bounds the rounds
-- of the loop; `none` means that it ran out.
use Prim.Native.Nat.{zero}
use mathlib.Core.List.{◌∷◌, map-append}
use open_supervisor.Prelude.{
  take-append-drop, inr, ltb→lt, inl, sym, Bool-cases, ◌∙◌, ap, refl, lt→ltb, ◌≤◌, ◌-◌, [], ltb,
  arith, ◌++◌, if◌then◌else◌, some, drop, ◌≡◌, ◌+◌, suc, none, length, take, Option, map, ◌<◌, List,
  ℕ,
}

module _ {ℓ κ} {A : Type ℓ} {R : Type κ} (fn : List A → List R) where
  -- The loop from the index `i` on.
  unfoldable pub batches_from : ℕ → List A → ℕ → ℕ → Option (List R)
  batches_from zero items batch_size i = none
  batches_from (suc fuel) items batch_size i =
      let rest = batches_from fuel items batch_size (i + batch_size) in
      if ltb i (length items)
      then elim rest [
        | none ↦ none
        | some results ↦ some (fn (take batch_size (drop i items)) ++ results)
      ]
      else some []

  unfoldable pub process_batches : ℕ → List A → ℕ → Option (List R)
  unfolding batches_from
  process_batches fuel items batch_size = batches_from fuel items batch_size 0

  stays :
      (fuel i j : ℕ) (items : List A)
      → i ≡ j
      → j < length items
      → batches_from fuel items 0 i ≡ none
  unfolding batches_from
  stays zero i j items e h = refl
  stays (suc fuel) i j items e h =
      rw (lt→ltb i (length items) (omega arith), stays fuel (i + 0) j items (omega arith) h) refl

  -- With batches of size 0 and at least one item the loop never ends: its index stays at 0.
  pub empty_batches_diverge :
      (fuel : ℕ) (items : List A) → 0 < length items → process_batches fuel items 0 ≡ none
  unfolding process_batches
  empty_batches_diverge fuel items h = stays fuel 0 0 items refl h

module _ {ℓ} {A : Type ℓ} where
  drop-drop : (i n : ℕ) (items : List A) → drop n (drop i items) ≡ drop (i + n) items
  drop-drop zero n items = ap (λ k. drop k items) (here n)
    where
      here : (n : ℕ) → n ≡ 0 + n
      here n = omega arith
  drop-drop (suc i) n [] = nothing n ∙ ap (λ k. drop k []) (next i n)
    where
      nothing : (n : ℕ) → drop {A = A} n [] ≡ []
      nothing zero = refl
      nothing (suc n) = refl

      next : (i n : ℕ) → suc (i + n) ≡ suc i + n
      next i n = omega arith
  drop-drop (suc i) n (x ∷ items) = drop-drop i n items ∙ ap (λ k. drop k (x ∷ items)) (next i n)
    where
      next : (i n : ℕ) → suc (i + n) ≡ suc i + n
      next i n = omega arith

  drop-ge : (i : ℕ) (items : List A) → length items ≤ i → drop i items ≡ []
  drop-ge zero [] h = refl
  drop-ge zero (x ∷ items) h = absurd (omega arith)
  drop-ge (suc i) [] h = refl
  drop-ge (suc i) (x ∷ items) h = drop-ge i items (omega arith)

module _ {ℓ κ} {A : Type ℓ} {R : Type κ} (f : A → R) where
  map_batch :
      (n i : ℕ) (items : List A)
      → map f (take n (drop i items)) ++ map f (drop (i + n) items) ≡ map f (drop i items)
  map_batch n i items =
      ap (λ xs. map f (take n (drop i items)) ++ map f xs) (sym (drop-drop i n items))
      ∙ sym (map-append f (take n (drop i items)) (drop n (drop i items)))
      ∙ ap (map f) (take-append-drop n (drop i items))

  batches_map :
      (fuel : ℕ) (items : List A) (batch_size i : ℕ)
      → 0 < batch_size
      → length items - i < fuel
      → batches_from (map f) fuel items batch_size i ≡ some (map f (drop i items))
  unfolding batches_from
  batches_map zero items batch_size i h lt = absurd (omega arith)
  batches_map (suc fuel) items batch_size i h lt = elim (Bool-cases (ltb i (length items))) [
    | inl more ↦
        rw
          (
            more,
            batches_map fuel items batch_size (i + batch_size) h
                (omega (arith, ltb→lt i (length items) more)),
          )
          (ap some (map_batch batch_size i items))
    | inr over ↦ rw (over, drop-ge i items (ground arith)) refl
  ]

  -- With batches of at least one item, and fuel for one round more than there are items, processing the
  -- items in batches gives what processing them one by one gives, in their order.
  pub process_batches-map :
      (fuel : ℕ) (items : List A) (batch_size : ℕ)
      → 0 < batch_size
      → length items < fuel
      → process_batches (map f) fuel items batch_size ≡ some (map f items)
  unfolding process_batches
  process_batches-map fuel items batch_size h lt =
      batches_map fuel items batch_size 0 h (omega arith)
