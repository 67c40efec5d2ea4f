-- ===== src/Deque/Refine.antt =====
-- src/core/queue/work-stealing-deque.ts: the deque stands for a list, oldest first. The owner works
-- at its end and the thieves at its head.
use Prim.Native.Nat.{zero}
use open_supervisor.Deque.Cells.{
  get-put_self, mod_ne, get-put_ne, capacity-put, get-copy, capacity-copy, put-IsSized,
  new_array-IsSized, copy-IsSized, IsSized,
}
use open_supervisor.Prelude.{
  sym, true, inr, ◌==◌, inl, false, Bool-cases, dec_lt, ◌∙◌, length-append, refl, ◌*◌, ◌∷◌, arith,
  [], ◌-◌, ◌<◌, ◌+◌, ◌≡◌, ◌++◌, length, List,
}
use open_supervisor.Deque.{
  none, leb, pop, push, CircularArray, steal, suc, some, get, put, ℕ, new_array, get_elem?, new,
  Deque, grow,
}

module _ {ℓ} {A : Type ℓ} where
  -- The cells from `top` on are the elements of the list, and one cell at least is free.
  pub record Holds (d : Deque A) (xs : List A) : Type ℓ where
    pub sized : IsSized d.array
    pub window : d.bottom ≡ d.top + length xs
    pub fits : length xs < d.array.capacity
    pub cells : (i : ℕ) → i < length xs → get d.array (d.top + i) ≡ get_elem? xs i

  -- A new deque holds nothing.
  pub new-Holds : (n : ℕ) → 0 < n → Holds (new n) []
  unfolding new new_array
  new-Holds n h = record {
    sized = new_array-IsSized n h;
    window = refl;
    fits = h;
    cells = λ i lt. absurd (omega arith);
  }

  get_elem?-append_left :
      (xs ys : List A) (i : ℕ) → i < length xs → get_elem? (xs ++ ys) i ≡ get_elem? xs i
  get_elem?-append_left [] ys i h = absurd (omega arith)
  get_elem?-append_left (x ∷ xs) ys zero h = refl
  get_elem?-append_left (x ∷ xs) ys (suc i) h = get_elem?-append_left xs ys i (omega arith)

  get_elem?-append_end : (xs : List A) (x : A) → get_elem? (xs ++ x ∷ []) (length xs) ≡ some x
  get_elem?-append_end [] x = refl
  get_elem?-append_end (y ∷ xs) x = get_elem?-append_end xs x

  capacity-grow : (a : CircularArray A) (b t : ℕ) → (grow a b t).capacity ≡ a.capacity * 2
  unfolding grow new_array
  capacity-grow a b t = capacity-copy a (b - t) t (new_array (a.capacity * 2))

  -- Growing keeps the elements.
  grow-Holds :
      (d : Deque A) (xs : List A)
      → Holds d xs
      → Holds (record d { array = grow d.array d.bottom d.top }) xs
  unfolding grow new_array
  grow-Holds d xs h = record {
    sized =
        copy-IsSized d.array (d.bottom - d.top) d.top _
          (new_array-IsSized (d.array.capacity * 2) (omega (arith, h.sized.positive)));
    window = h.window;
    fits = omega (
      arith,
      capacity-copy d.array (d.bottom - d.top) d.top (new_array (d.array.capacity * 2)),
      h.fits,
    );
    cells = λ i lt.
        get-copy d.array (d.bottom - d.top) d.top (d.top + i) (new_array (d.array.capacity * 2))
          (new_array-IsSized (d.array.capacity * 2) (omega (arith, h.sized.positive)))
          (omega (arith, h.window, h.fits)) (omega arith) (omega (arith, h.window))
        ∙ h.cells i lt;
  }

  write-Holds :
      (d : Deque A) (xs : List A) (x : A)
      → Holds d xs
      → length xs + 1 < d.array.capacity
      → Holds
          (record d { array = put d.array d.bottom (some x); bottom = d.bottom + 1 })
          (xs ++ x ∷ [])
  write-Holds d xs x h room = record {
    sized = put-IsSized d.array d.bottom (some x) h.sized;
    window = omega (arith, h.window, length-append xs (x ∷ []));
    fits = omega (arith, capacity-put d.array d.bottom (some x), length-append xs (x ∷ []), room);
    cells = λ i lt. elim (dec_lt i (length xs)) [
      | yes old ↦
          get-put_ne d.array d.bottom (d.top + i) (some x) (
            mod_ne (d.top + i) d.bottom d.array.capacity (omega (arith, h.window))
              (omega (arith, h.window, h.fits)))
          ∙ h.cells i old
          ∙ sym (get_elem?-append_left xs (x ∷ []) i old)
      | no last ↦
          let e : i ≡ length xs = omega (arith, lt, last, length-append xs (x ∷ [])) in
          let here : d.top + i ≡ d.bottom = omega (arith, e, h.window) in
          rw (here, e)
            (get-put_self d.array d.bottom (some x) h.sized ∙ sym (get_elem?-append_end xs x))
    ];
  }

  -- `push` puts the item at the end of the list, growing the array when it is about to be full.
  pub push-Holds :
      (d : Deque A) (xs : List A) (x : A) → Holds d xs → Holds (push d x) (xs ++ x ∷ [])
  unfolding push
  push-Holds d xs x h = elim (Bool-cases (leb (d.array.capacity - 1) (d.bottom - d.top))) [
    | inl full ↦ rw full (
        write-Holds (record d { array = grow d.array d.bottom d.top }) xs x (grow-Holds d xs h)
          (omega (arith, capacity-grow d.array d.bottom d.top, h.fits)))
    | inr room ↦ rw room (write-Holds d xs x h (ground (arith, h.window, h.fits)))
  ]

  last_item :
      (d : Deque A) (xs : List A) (x : A)
      → Holds d (xs ++ x ∷ [])
      → get d.array (d.bottom - 1) ≡ some x
  last_item d xs x h =
      let long = length-append xs (x ∷ []) in
      let here : d.bottom - 1 ≡ d.top + length xs = omega (arith, h.window, long) in
      rw here (h.cells (length xs) (omega (arith, long)) ∙ get_elem?-append_end xs x)

  shrink-Holds :
      (d : Deque A) (xs : List A) (x : A)
      → Holds d (xs ++ x ∷ [])
      → Holds (record d { bottom = d.bottom - 1 }) xs
  shrink-Holds d xs x h =
      let long = length-append xs (x ∷ []) in
      record {
        sized = h.sized;
        window = omega (arith, h.window, long);
        fits = omega (arith, h.fits, long);
        cells =
            λ i lt. h.cells i (omega (arith, lt, long)) ∙ get_elem?-append_left xs (x ∷ []) i lt;
      }

  drained-Holds :
      (d : Deque A) (t : ℕ) → IsSized d.array → Holds (record d { top = t; bottom = t }) []
  drained-Holds d t s = record {
    sized = s;
    window = omega arith;
    fits = s.positive;
    cells = λ i lt. absurd (omega arith);
  }

  -- A deque that holds nothing answers `null` to its owner and to thieves, and still holds nothing.
  pub pop-empty :
      (d : Deque A)
      → Holds d []
      → ((pop d).1 ≡ none) × Holds (pop d).0 [] × ((steal d).1 ≡ none) × Holds (steal d).0 []
  unfolding pop steal
  pop-empty d h =
      let done : leb d.bottom d.top ≡ true = ground (arith, h.window) in
      (
        rw (done, pop),
        rw (done, pop) (drained-Holds d d.top h.sized),
        rw (done, steal),
        rw (done, steal) h,
      )

  -- `pop` takes the last item.
  pub pop-Holds :
      (d : Deque A) (xs : List A) (x : A)
      → Holds d (xs ++ x ∷ [])
      → ((pop d).1 ≡ some x) × Holds (pop d).0 xs
  unfolding pop
  pop-Holds d [] x h =
      let more : leb d.bottom d.top ≡ false = ground (arith, h.window) in
      let one : (d.bottom - 1 - d.top == 0) ≡ true = ground (arith, h.window) in
      let won : (d.top == d.top + 1 - 1) ≡ true = ground arith in
      rw (more, pop) (rw one (rw won (last_item d [] x h), drained-Holds d (d.top + 1) h.sized))
  pop-Holds d (y ∷ ys) x h =
      let long = length-append ys (x ∷ []) in
      let more : leb d.bottom d.top ≡ false = ground (arith, h.window, long) in
      let many : (d.bottom - 1 - d.top == 0) ≡ false = ground (arith, h.window, long) in
      rw (more, pop) (rw many (last_item d (y ∷ ys) x h, shrink-Holds d (y ∷ ys) x h))

  -- `steal` takes the first item.
  pub steal-Holds :
      (d : Deque A) (x : A) (xs : List A)
      → Holds d (x ∷ xs)
      → ((steal d).1 ≡ some x) × Holds (steal d).0 xs
  unfolding steal
  steal-Holds d x xs h =
      let more : leb d.bottom d.top ≡ false = ground (arith, h.window) in
      let won : (d.top == d.top + 1 - 1) ≡ true = ground arith in
      let zeroth : d.top + 0 ≡ d.top = omega arith in
      rw (more, steal) (rw won (rw (← zeroth) (h.cells 0 (omega arith)), rest))
    where
      rest : Holds (record d { top = d.top + 1 }) xs
      rest = record {
        sized = h.sized;
        window = omega (arith, h.window);
        fits = omega (arith, h.fits);
        cells = λ i lt.
            let e : d.top + 1 + i ≡ d.top + suc i = omega arith in
            rw e (h.cells (suc i) (omega arith));
      }
