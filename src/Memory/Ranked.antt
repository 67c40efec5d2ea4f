-- ===== src/Memory/Ranked.antt =====
-- src/core/memory/memory-manager.ts: the order of the entries of a level.
use mathlib.Core.List.{Perm}
use open_supervisor.Memory.Entries.{insert, is_before, MemoryEntry, sort}
use mathlib.Core.List.Perm
use open_supervisor.Prelude.{
  inr, inl, false, ◌≤◌, true, [], ◌≡◌, ◌⊎◌, Bool-cases, arith, All, ◌<◌, ◌∷◌, List,
}

-- The first entry is more important, or as important and not older.
abbrev pub Outranks : MemoryEntry → MemoryEntry → Type 0
Outranks a b =
    (b.importance < a.importance) ⊎ ((a.importance ≡ b.importance) × (b.timestamp ≤ a.timestamp))

-- Each entry outranks all that follow.
abbrev pub Ranked : List MemoryEntry → Type 0
Ranked [] = Unit
Ranked (e ∷ es) = All (Outranks e) es × Ranked es

Outranks-trans : (a b c : MemoryEntry) → Outranks a b → Outranks b c → Outranks a c
Outranks-trans a b c p q = ground arith

All-trans :
    (a b : MemoryEntry) (es : List MemoryEntry)
    → Outranks a b
    → All (Outranks b) es
    → All (Outranks a) es
All-trans a b [] p q = tt
All-trans a b (e ∷ es) p (q, rest) = (Outranks-trans a b e p q, All-trans a b es p rest)

is_before-Outranks : (x e : MemoryEntry) → is_before x e ≡ true → Outranks x e
is_before-Outranks x e h = ground arith

not_before-Outranks : (x e : MemoryEntry) → is_before x e ≡ false → Outranks e x
not_before-Outranks x e h = ground arith

All-insert :
    (a e : MemoryEntry) (es : List MemoryEntry)
    → Outranks a e
    → All (Outranks a) es
    → All (Outranks a) (insert e es)
All-insert a e [] p q = (p, tt)
All-insert a e (x ∷ xs) p (q, rest) = elim (Bool-cases (is_before x e)) [
  | inl first ↦ rw first (q, All-insert a e xs p rest)
  | inr later ↦ rw later (p, (q, rest))
]

insert-Ranked : (e : MemoryEntry) (es : List MemoryEntry) → Ranked es → Ranked (insert e es)
insert-Ranked e [] r = (tt, tt)
insert-Ranked e (x ∷ xs) (all_x, r) = elim (Bool-cases (is_before x e)) [
  | inl first ↦
      rw first (All-insert x e xs (is_before-Outranks x e first) all_x, insert-Ranked e xs r)
  | inr later ↦
      let p = not_before-Outranks x e later in rw later ((p, All-trans e x xs p all_x), (all_x, r))
]

pub sort-Ranked : (es : List MemoryEntry) → Ranked (sort es)
unfolding sort
sort-Ranked [] = tt
sort-Ranked (e ∷ es) = insert-Ranked e (sort es) (sort-Ranked es)

insert-Perm : (e : MemoryEntry) (es : List MemoryEntry) → Perm (insert e es) (e ∷ es)
insert-Perm e [] = Perm.refl (e ∷ [])
insert-Perm e (x ∷ xs) = elim (Bool-cases (is_before x e)) [
  | inl first ↦ rw first (Perm.trans (Perm.cons x (insert-Perm e xs)) (Perm.swap e x xs))
  | inr later ↦ rw later (Perm.refl (e ∷ x ∷ xs))
]

pub sort-Perm : (es : List MemoryEntry) → Perm (sort es) es
unfolding sort
sort-Perm [] = Perm.refl []
sort-Perm (e ∷ es) = Perm.trans (insert-Perm e (sort es)) (Perm.cons e (sort-Perm es))
