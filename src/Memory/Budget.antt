-- ===== src/Memory/Budget.antt =====
-- src/core/memory/memory-manager.ts: what a level keeps.
use open_supervisor.Memory.Ranked.{sort-Ranked, Ranked, sort-Perm}
use open_supervisor.Memory.Entries.{
  task_level, system_level, project_level, mission_level, mission_level, project_level,
  system_level, sort, put_entries, token_budget, pop_first, entries_of, MemoryManager,
  MemorySnapshot, Popped, MemoryEntry, prune, MemoryLevel, pop_while, add, size,
}
use mathlib.Core.List.{Perm}
use open_supervisor.Prelude.{
  inr, inl, Bool-cases, ◌∙◌, ap, ◌-◌, sym, ltb, refl, if◌then◌else◌, subst, ◌<◌, arith, ◌≡◌, length,
  [], ◌*◌, ◌+◌, ◌≤◌, ◌++◌, ◌∷◌, List, ℕ,
}

-- The size with the first of the entries that are left out is above the bound, if there is one.
abbrev pub Exceeds : ℕ → List MemoryEntry → List MemoryEntry → Type 0
Exceeds bound kept [] = Unit
Exceeds bound kept (e ∷ rest) = bound < size kept + length e.content

-- The longest prefix of a list whose size is within a bound, but for the empty one, which always is.
pub record LongestPrefix (bound : ℕ) (es kept : List MemoryEntry) : Type 0 where
  pub removed : List MemoryEntry
  pub whole : kept ++ removed ≡ es
  pub fits : size kept ≤ bound
  pub longest : Exceeds bound kept removed

abbrev Fits : ℕ → ℕ → List MemoryEntry → Type 0
Fits budget before [] = Unit
Fits budget before (x ∷ xs) = before + size (x ∷ xs) ≤ budget

-- What the loop leaves of entries that stand after others of the size `before`.
record PoppedWell (budget before : ℕ) (es : List MemoryEntry) (p : Popped) : Type 0 where
  whole : p.kept ++ p.removed ≡ es
  current : p.current_size ≡ before + size p.kept
  fits : Fits budget before p.kept
  longest :
      (e : MemoryEntry) (rest : List MemoryEntry)
      → p.removed ≡ e ∷ rest
      → budget < before + (size p.kept + length e.content)

pop_first-PoppedWell :
    (budget before : ℕ) (x : MemoryEntry) (es : List MemoryEntry) (p : Popped)
    → PoppedWell budget (before + length x.content) es p
    → PoppedWell budget before (x ∷ es) (pop_first budget x p)
unfolding size
pop_first-PoppedWell budget before x es p k = by_kept p.kept refl
  where
    n : ℕ
    n = length x.content

    by_kept :
        (o : List MemoryEntry)
        → p.kept ≡ o
        → PoppedWell budget before (x ∷ es) (elim o as (λ y. Popped) [
          | [] ↦
              if ltb budget p.current_size
              then record { kept = []; current_size = p.current_size - n; removed = x ∷ p.removed }
              else record p { kept = x ∷ [] }
          | y ∷ ys ↦ record p { kept = x ∷ y ∷ ys }
        ])
    by_kept [] e =
        let all_gone : p.removed ≡ es = ap (λ ks. ks ++ p.removed) (sym e) ∙ k.whole in
        let left : p.current_size ≡ before + n + 0 =
          k.current ∙ ap (λ ks. before + n + size ks) e in
        elim (Bool-cases (ltb budget p.current_size)) [
          | inl over ↦
              let above : budget < before + n = ground (arith, over, left) in
              rw over (record {
                whole = ap (λ rs. x ∷ rs) all_gone;
                current = omega (arith, left);
                fits = tt;
                longest = λ y rest eq.
                    let same : x ≡ y = cc eq in
                    subst (λ z. budget < before + (0 + length z.content)) same
                      (omega (arith, above));
              })
          | inr within ↦
              let below : before + n ≤ budget = ground (arith, within, left) in
              rw within (record {
                whole = ap (λ rs. x ∷ rs) all_gone;
                current = omega (arith, left);
                fits = omega (arith, below);
                longest = λ y rest eq.
                    let more : budget < before + n + (0 + length y.content) =
                      subst (λ ks. budget < before + n + (size ks + length y.content)) e
                        (k.longest y rest eq) in
                    omega (arith, more);
              })
        ]
    by_kept (y ∷ ys) e = record {
      whole = ap (λ ks. x ∷ (ks ++ p.removed)) (sym e) ∙ ap (λ rs. x ∷ rs) k.whole;
      current =
          let now : p.current_size ≡ before + n + size (y ∷ ys) =
            k.current ∙ ap (λ ks. before + n + size ks) e in
          omega (arith, now);
      fits =
          let f : before + n + size (y ∷ ys) ≤ budget = subst (Fits budget (before + n)) e k.fits in
          omega (arith, f);
      longest = λ z rest eq.
          let more : budget < before + n + (size (y ∷ ys) + length z.content) =
            subst (λ ks. budget < before + n + (size ks + length z.content)) e
              (k.longest z rest eq) in
          omega (arith, more);
    }

pop_while-PoppedWell :
    (budget before : ℕ) (es : List MemoryEntry)
    → PoppedWell budget before es (pop_while budget (before + size es) es)
unfolding pop_while size
pop_while-PoppedWell budget before [] = record {
  whole = refl;
  current = refl;
  fits = tt;
  longest = λ e rest eq. cc eq;
}
pop_while-PoppedWell budget before (x ∷ es) =
    let ih = pop_while-PoppedWell budget (before + length x.content) es in
    let total : before + length x.content + size es ≡ before + (length x.content + size es) =
      omega arith in
    pop_first-PoppedWell budget before x es _ (
      subst (λ n. PoppedWell budget (before + length x.content) es (pop_while budget n es)) total
        ih)

pop_while-LongestPrefix :
    (budget : ℕ) (es : List MemoryEntry)
    → LongestPrefix budget es (pop_while budget (size es) es).kept
unfolding size
pop_while-LongestPrefix budget es =
    let total : 0 + size es ≡ size es = omega arith in
    let k =
      subst (λ n. PoppedWell budget 0 es (pop_while budget n es)) total
        (pop_while-PoppedWell budget 0 es) in
    record {
      removed = (pop_while budget (size es) es).removed;
      whole = k.whole;
      fits = fitting (pop_while budget (size es) es).kept k.fits;
      longest =
          exceeding (pop_while budget (size es) es).kept (pop_while budget (size es) es).removed
            k.longest;
    }
  where
    exceeding :
        (kept removed : List MemoryEntry)
        → ((e : MemoryEntry) (rest : List MemoryEntry)
            → removed ≡ e ∷ rest
            → budget < 0 + (size kept + length e.content))
        → Exceeds budget kept removed
    exceeding kept [] h = tt
    exceeding kept (e ∷ rest) h = let more = h e rest refl in omega (arith, more)

    fitting : (kept : List MemoryEntry) → Fits budget 0 kept → size kept ≤ budget
    fitting [] f = omega arith
    fitting (x ∷ xs) f = omega (arith, f)

entries-put :
    (level : MemoryLevel) (es : List MemoryEntry) (s : MemorySnapshot)
    → entries_of level (put_entries level es s) ≡ es
entries-put system_level es s = refl
entries-put project_level es s = refl
entries-put mission_level es s = refl
entries-put task_level es s = refl

add-LongestPrefix :
    (e : MemoryEntry) (m : MemoryManager)
    → LongestPrefix
        (4 * token_budget e.level)
        (sort (entries_of e.level m.storage ++ (e ∷ [])))
        (entries_of e.level (add e m).storage)
unfolding add prune
add-LongestPrefix e m =
    let es = sort (entries_of e.level m.storage ++ (e ∷ [])) in
    let s = put_entries e.level es m.storage in
    let b = 4 * token_budget e.level in
    let here : entries_of e.level s ≡ es = entries-put e.level es m.storage in
    let p = pop_while b (size (entries_of e.level s)) (entries_of e.level s) in
    subst (LongestPrefix b es) (sym (entries-put e.level p.kept s)) (
      subst (λ xs. LongestPrefix b es (pop_while b (size xs) xs).kept) (sym here)
        (pop_while-LongestPrefix b es))

-- What a level may hold, in quarters of the tokens of its budget.
abbrev pub size_bound : MemoryLevel → ℕ
size_bound system_level = 8000
size_bound project_level = 20000
size_bound mission_level = 40000
size_bound task_level = 80000

size_bound-token_budget : (level : MemoryLevel) → 4 * token_budget level ≡ size_bound level
size_bound-token_budget system_level = refl
size_bound-token_budget project_level = refl
size_bound-token_budget mission_level = refl
size_bound-token_budget task_level = refl

-- The longest prefix within a bound of entries in their order.
pub record BestEntries (bound : ℕ) (es kept : List MemoryEntry) : Type 0 where
  pub ordered : List MemoryEntry
  pub same : Perm ordered es
  pub ranked : Ranked ordered
  pub best : LongestPrefix bound ordered kept

-- After an entry was added its level holds the longest prefix within the bound of its level of the entries
-- before and the new one, when these are put in an order in which each entry is more important than all
-- that follow, or as important and not older.
pub add-BestEntries :
    (e : MemoryEntry) (m : MemoryManager)
    → BestEntries
        (size_bound e.level)
        (entries_of e.level m.storage ++ (e ∷ []))
        (entries_of e.level (add e m).storage)
add-BestEntries e m =
    let es = entries_of e.level m.storage ++ (e ∷ []) in
    record {
      ordered = sort es;
      same = sort-Perm es;
      ranked = sort-Ranked es;
      best =
          subst (λ b. LongestPrefix b (sort es) (entries_of e.level (add e m).storage))
            (size_bound-token_budget e.level) (add-LongestPrefix e m);
    }
