-- ===== src/Work/CrewLaws.antt =====
-- src/core/queue/work-pool.ts: the results do not depend on the order in which the calls return.
use Prim.Native.Nat.{zero}
use mathlib.Core.List.{map}
use open_supervisor.Work.Crew.{
  takes, throws, returns, Event, step, lost, run, take_next, done, start, Crew, with_index,
}
use open_supervisor.Prelude.{
  ltb→lt, if◌then◌else◌, ltb, length-replicate, length-set, get_elem?-set_self, get_elem?-set_ne,
  Option-cases, none, ◌≤◌, ◌<◌, Option, ◌==◌, false, Bool-cases, Bool, ◌+◌, ◌||◌, true, refl, ◌∙◌,
  arith, ap, sym, length, ap₂, inl, subst, ◌⊎◌, suc, [], some, inr, ◌≡◌, get_elem?, ◌∷◌, List, ℕ,
}
use open_supervisor.Work.Indexed.{
  All-reverse, All-remove_at, All-get, has, has-reverse, has-with_index, has-remove_at,
  length-remove_at, list_ext, Drawn, Drawn-with_index, get-lt, get-ge, ge-get,
}

module _ {ℓ κ} {A : Type ℓ} {R : Type κ} (fn : A → ℕ → R) (items : List A) where
  -- The result of an item is stored.
  abbrev Settled : Crew A R → ℕ → Type (ℓ ⊔ κ)
  Settled c i = (a : A) → get_elem? items i ≡ some a → get_elem? c.results i ≡ some (some (fn a i))

  -- Unless a call has thrown, each item is settled, pending or running.
  pub record IsSound (limit : ℕ) (c : Crew A R) : Type (ℓ ⊔ κ) where
    pub sized : length c.results ≡ length items
    pub drawn : Drawn items c.pending × Drawn items c.running
    pub bounded : c.free + length c.running ≤ limit
    pub placed :
        (i : ℕ) → c.rejected ≡ false → Settled c i ⊎ ((has i c.pending || has i c.running) ≡ true)

  start-IsSound : (limit : ℕ) → IsSound limit (start limit items)
  unfolding start
  start-IsSound limit = record {
    sized = length-replicate (length items) none;
    drawn = (
      All-reverse _ _ (Drawn-with_index items 0 items (λ i. ap (get_elem? items) (from_zero i))),
      tt,
    );
    bounded = omega arith;
    placed = λ i h. elim (Option-cases (get_elem? items i)) [
      | inl absent ↦ inl (λ a e. cc (absent, e))
      | inr (a, there) ↦ inr (
          ap (λ b. b || false)
            (has-reverse i (with_index 0 items)
              ∙ ap (λ k. has k (with_index 0 items)) (sym (from_zero i))
              ∙ has-with_index 0 i items a there))
    ];
  }
    where
      from_zero : (i : ℕ) → 0 + i ≡ i
      from_zero i = omega arith

  take_next-IsSound :
      (limit : ℕ) (ws : List (ℕ × A)) (c : Crew A R)
      → c.pending ≡ ws
      → 0 < c.free
      → IsSound limit c
      → IsSound limit (take_next ws c)
  take_next-IsSound limit [] c e f h = record {
    sized = h.sized;
    drawn = h.drawn;
    bounded = omega (arith, h.bounded);
    placed = h.placed;
  }
  take_next-IsSound limit (w ∷ ws) c e f h =
      let d : Drawn items (w ∷ ws) = subst (Drawn items) e h.drawn.0 in
      record {
        sized = h.sized;
        drawn = (d.1, (d.0, h.drawn.1));
        bounded = omega (arith, h.bounded);
        placed = λ i k. elim (h.placed i k) [
          | inl settled ↦ inl settled
          | inr here ↦ inr (ground (arith, here, ap (has i) e))
        ];
      }

  done-IsSound :
      (limit i : ℕ) (found : Option (ℕ × A)) (c : Crew A R)
      → get_elem? c.running i ≡ found
      → IsSound limit c
      → IsSound limit (done fn i found c)
  done-IsSound limit i none c e h = h
  done-IsSound limit i (some (index, item)) c e h = record {
    sized = length-set c.results index _ ∙ h.sized;
    drawn = (h.drawn.0, All-remove_at _ i c.running h.drawn.1);
    bounded = omega (arith, h.bounded, length-remove_at i c.running (index, item) e);
    placed = λ j k. elim (Bool-cases (j == index)) [
      | inl hit ↦
          let same : index ≡ j = ground (arith, hit) in
          inl (λ a q.
            let one : item ≡ a = ground (arith, item_at, ap (get_elem? items) same ∙ q) in
            ap (get_elem? _) (sym same)
            ∙ get_elem?-set_self c.results index _
                (omega (arith, h.sized, get-lt items index item item_at))
            ∙ ap₂ (λ x n. some (some (fn x n))) one same)
      | inr miss ↦ elim (h.placed j k) [
        | inl settled ↦ inl (λ a q.
            get_elem?-set_ne c.results index j _ (λ same. ground (arith, miss)) ∙ settled a q)
        | inr here ↦ elim (Bool-cases (has j c.pending)) [
          | inl waits ↦ inr (rw waits refl)
          | inr gone ↦ elim (has-remove_at j i c.running (index, item) e (rw gone at here)) [
            | inl same ↦ absurd (ground (arith, miss, same))
            | inr there ↦ inr (rw (gone, there) refl)
          ]
        ]
      ]
    ];
  }
    where
      item_at : get_elem? items index ≡ some item
      item_at = All-get _ i c.running (index, item) e h.drawn.1

  lost-IsSound :
      (limit i : ℕ) (found : Option (ℕ × A)) (c : Crew A R)
      → get_elem? c.running i ≡ found
      → IsSound limit c
      → IsSound limit (lost i found c)
  lost-IsSound limit i none c e h = h
  lost-IsSound limit i (some work) c e h = record {
    sized = h.sized;
    drawn = (h.drawn.0, All-remove_at _ i c.running h.drawn.1);
    bounded = omega (arith, h.bounded, length-remove_at i c.running work e);
    placed = λ j k. cc k;
  }

  run-IsSound :
      (limit : ℕ) (es : List Event) (c : Crew A R) → IsSound limit c → IsSound limit (run fn c es)
  unfolding run step
  run-IsSound limit [] c h = h
  run-IsSound limit (returns i ∷ es) c h =
      run-IsSound limit es _ (done-IsSound limit i (get_elem? c.running i) c refl h)
  run-IsSound limit (throws i ∷ es) c h =
      run-IsSound limit es _ (lost-IsSound limit i (get_elem? c.running i) c refl h)
  run-IsSound limit (takes ∷ es) c h = run-IsSound limit es _ (taken (ltb 0 c.free) refl)
    where
      taken : (b : Bool) → ltb 0 c.free ≡ b → IsSound limit (if b then take_next c.pending c else c)
      taken true e = take_next-IsSound limit c.pending c refl (ltb→lt 0 c.free e) h
      taken false e = h

  -- The results of the calls one after the other.
  abbrev pub in_order : ℕ → List A → List R
  in_order i [] = []
  in_order i (x ∷ xs) = fn x i ∷ in_order (suc i) xs

  get-in_order :
      (k i : ℕ) (xs : List A) (a : A)
      → get_elem? xs i ≡ some a
      → get_elem? (map some (in_order k xs)) i ≡ some (some (fn a (k + i)))
  get-in_order k i [] a e = cc
  get-in_order k zero (x ∷ xs) a e =
      let same : x ≡ a = ground (arith, e) in
      let here : k ≡ k + 0 = omega arith in ap₂ (λ y n. some (some (fn y n))) same here
  get-in_order k (suc i) (x ∷ xs) a e =
      let next : suc k + i ≡ k + suc i = omega arith in
      get-in_order (suc k) i xs a e ∙ ap (λ n. some (some (fn a n))) next

  length-in_order : (k : ℕ) (xs : List A) → length (map some (in_order k xs)) ≡ length xs
  length-in_order k [] = refl
  length-in_order k (x ∷ xs) = ap suc (length-in_order (suc k) xs)

  same_get :
      (c : Crew A R) (i : ℕ)
      → length c.results ≡ length items
      → Settled c i
      → get_elem? c.results i ≡ get_elem? (map some (in_order 0 items)) i
  same_get c i n settled = elim (Option-cases (get_elem? items i)) [
    | inr (a, e) ↦
        let first : i ≡ 0 + i = omega arith in
        settled a e ∙ ap (λ k. some (some (fn a k))) first ∙ sym (get-in_order 0 i items a e)
    | inl absent ↦
        let far : length items ≤ i = get-ge items i absent in
        ge-get c.results i (omega (arith, n))
        ∙ sym (ge-get (map some (in_order 0 items)) i (omega (arith, length-in_order 0 items)))
  ]

-- At most `limit` calls run at once, whatever the events.
pub running_bounded {ℓ κ} :
    {A : Type ℓ}
    → {R : Type κ} → (fn : A → ℕ → R) → (items : List A) → (limit : ℕ) → (es : List Event)
    → length (run fn (start limit items) es).running ≤ limit
running_bounded fn items limit es =
    let h = run-IsSound fn items limit es (start limit items) (start-IsSound fn items limit) in
    omega (arith, h.bounded)

-- In whatever order the calls return, once nothing is pending or running and no call has thrown, the
-- results are those of calling `fn` on one item after the other.
pub results_in_order {ℓ κ} :
    {A : Type ℓ}
    → {R : Type κ} → (fn : A → ℕ → R) → (items : List A) → (limit : ℕ) → (es : List Event)
    → (run fn (start limit items) es).rejected ≡ false
    → (run fn (start limit items) es).pending ≡ []
    → (run fn (start limit items) es).running ≡ []
    → (run fn (start limit items) es).results ≡ map some (in_order fn items 0 items)
results_in_order fn items limit es ok p r =
    let c = run fn (start limit items) es in
    let h = run-IsSound fn items limit es (start limit items) (start-IsSound fn items limit) in
    list_ext c.results (map some (in_order fn items 0 items)) (λ i.
      same_get fn items c i h.sized (elim (h.placed i ok) [
        | inl settled ↦ settled
        | inr here ↦ cc (sym (ap₂ (λ x y. has i x || has i y) p r) ∙ here)
      ]))
