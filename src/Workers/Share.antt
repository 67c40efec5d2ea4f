-- ===== src/Workers/Share.antt =====
-- src/core/queue/worker-pool.ts: what a round of a worker takes, and that no item is lost.
use open_supervisor.Workers.Rows.{get-lt, set-Rows, set_same, get-some, NoneFound, Rows}
use open_supervisor.Deque.{WorkItem}
use open_supervisor.Workers.{WorkerPool, take, pop_at, try_steal}
use open_supervisor.Prelude.{
  ◌≢◌, true, false, ◌++◌, Bool, ◌∷◌, refl, subst, set, ◌∙◌, sym, inr, ap, [], get_elem?, arith,
  some, ◌⊎◌, inl, none, length, ◌<◌, ◌≡◌, Option, List, ℕ,
}
use open_supervisor.Deque
use open_supervisor.Deque.Refine.{pop-Holds, pop-empty}
use open_supervisor.Workers.Thefts.{Steals, steal_from-Steals, visited}

module _ {ℓ} {T : Type ℓ} where
  -- The round of a worker `w` took an item: from the end of its own row, or from the head of another
  -- one while its own is empty.
  pub record Taken (w : ℕ) (item : WorkItem T) (stolen : Bool)
      (ds : List (Deque.Deque (WorkItem T))) (xss : List (List (WorkItem T))) : Type ℓ where
    pub from : ℕ
    pub row : List (WorkItem T)
    pub rest : List (WorkItem T)
    pub there : get_elem? xss from ≡ some row
    pub rows : Rows ds (set xss from rest)
    pub shape :
        ((stolen ≡ false) × (from ≡ w) × (row ≡ rest ++ (item ∷ [])))
        ⊎ ((stolen ≡ true) × (from ≢ w) × (row ≡ item ∷ rest) × (get_elem? xss w ≡ some []))

  abbrev pub NothingLeft : List (List (WorkItem T)) → Type ℓ
  NothingLeft xss = (i : ℕ) (row : List (WorkItem T)) → get_elem? xss i ≡ some row → row ≡ []

  abbrev pub Takes :
      ℕ
      → List (List (WorkItem T))
      → List (Deque.Deque (WorkItem T)) × Option (WorkItem T × Bool)
      → Type ℓ
  Takes w xss r =
      ((r.1 ≡ none) × NothingLeft xss × Rows r.0 xss)
      ⊎ ((item : WorkItem T) × (stolen : Bool) × (r.1 ≡ some (item, stolen))
          × Taken w item stolen r.0 xss)

  split_last :
      (xs : List (WorkItem T))
      → (xs ≡ []) ⊎ ((ys : List (WorkItem T)) × (y : WorkItem T) × (xs ≡ ys ++ (y ∷ [])))
  split_last [] = inl refl
  split_last (x ∷ xs) = elim (split_last xs) [
    | inl e ↦ inr ([], x, ap (◌∷◌ x) e)
    | inr (ys, y, e) ↦ inr (x ∷ ys, y, ap (◌∷◌ x) e)
  ]

  none_left :
      (w begin left : ℕ) (ds : List (Deque.Deque (WorkItem T))) (xss : List (List (WorkItem T)))
      → get_elem? xss w ≡ some []
      → begin < length xss
      → left ≡ length xss
      → NoneFound w begin 0 left ds xss
      → NothingLeft xss
  none_left w begin left ds xss own b n h i row e =
      let (k, kn, same) = visited begin i (length xss) b (get-lt xss i row e) in
      elim (h.empties k (omega arith) (omega (arith, n))) [
        | inl self ↦
            let one : some row ≡ some [] = sym e ∙ ap (get_elem? xss) (sym same ∙ self) ∙ own in
            ground (arith, one)
        | inr empty ↦
            let one : some row ≡ some [] = sym e ∙ ap (get_elem? xss) (sym same) ∙ empty in
            ground (arith, one)
      ]

  abbrev after_pop :
      List (Deque.Deque (WorkItem T)) × Option (WorkItem T)
      → List (Deque.Deque (WorkItem T)) × Option (WorkItem T × Bool)
  after_pop s = elim s.1 [ none ↦ (s.0, none) | some item ↦ (s.0, some (item, true)) ]

  by_theft :
      (w begin left : ℕ) (xss : List (List (WorkItem T)))
      (s : List (Deque.Deque (WorkItem T)) × Option (WorkItem T))
      → get_elem? xss w ≡ some []
      → begin < length xss
      → left ≡ length xss
      → Steals w begin 0 left xss s
      → Takes w xss (after_pop s)
  by_theft w begin left xss s own b n (inl (e, h)) =
      rw e (inl (refl, none_left w begin left s.0 xss own b n h, h.rows))
  by_theft w begin left xss s own b n (inr (item, e, h)) = rw e (
      inr (
        item,
        true,
        refl,
        record {
          from = h.victim;
          row = item ∷ h.rest;
          rest = h.rest;
          there = h.there;
          rows = h.rows;
          shape = inr (refl, h.other, refl, own);
        },
      ))

  pop_at-Takes :
      (w begin : ℕ) (ds : List (Deque.Deque (WorkItem T))) (xss : List (List (WorkItem T)))
      (d : Deque.Deque (WorkItem T)) (row : List (WorkItem T))
      → Rows ds xss
      → begin < length xss
      → get_elem? ds w ≡ some d
      → get_elem? xss w ≡ some row
      → Takes w xss (pop_at w begin (some d) ds)
  unfolding try_steal
  pop_at-Takes w begin ds xss d row h b at there = elim (split_last row) [
    | inl e ↦
        let empty : get_elem? xss w ≡ some [] = there ∙ ap some e in
        let gone = pop-empty d (h.held w d [] at empty) in
        let own : List (Deque.Deque (WorkItem T)) = set ds w (Deque.pop d).0 in
        let kept : Rows own xss =
          subst (Rows own) (set_same xss w [] empty)
            (set-Rows ds xss w (Deque.pop d).0 [] h gone.1) in
        rw (gone.0, pop_at)
          (by_theft w begin (length own) xss (try_steal w begin own) empty b kept.sized
            (steal_from-Steals w begin (length own) 0 own xss kept (omega arith)))
    | inr (ys, y, e) ↦
        let here : get_elem? xss w ≡ some (ys ++ (y ∷ [])) = there ∙ ap some e in
        let (got, left_over) = pop-Holds d ys y (h.held w d (ys ++ (y ∷ [])) at here) in
        rw (got, pop_at)
          (inr (
            y,
            false,
            refl,
            record {
              from = w;
              row = ys ++ (y ∷ []);
              rest = ys;
              there = here;
              rows = set-Rows ds xss w (Deque.pop d).0 ys h left_over;
              shape = inl (refl, refl, refl);
            },
          ))
  ]

-- A round of a worker takes the last item of its own row or, only if that row is empty, the first item of
-- another worker's row; it finds nothing only when every row is empty, and no item is lost or taken twice: the other items stay
-- where they are.
pub take-Takes {ℓ} :
    {T : Type ℓ}
    → (w begin : ℕ) → (p : WorkerPool T) → (xss : List (List (WorkItem T))) → Rows p.workers xss
    → w < length xss
    → begin < length xss
    → Takes w xss ((take w begin p).0.workers, (take w begin p).1)
unfolding take
take-Takes w begin p xss h wn b =
    let (d, at) = get-some p.workers w (omega (arith, wn, h.sized)) in
    let (row, there) = get-some xss w wn in
    subst (λ o. Takes w xss (pop_at w begin o p.workers)) (sym at)
      (pop_at-Takes w begin p.workers xss d row h b at there)
