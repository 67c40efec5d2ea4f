-- ===== src/Pools/StringsLaws.antt =====
-- src/core/pool/string-pool.ts: what `intern` returns, and how large the pool grows.
use open_supervisor.Prelude.Map
use open_supervisor.Pools.Strings.{
  max_length, utf16_length, existing, max_size, is_truthy, StringPool, evict, intern,
}
use open_supervisor.Prelude.{
  Option, ap, le→leb, false, refl, Option-cases, ltb, inr, none, inl, eq_refl, ◌+◌, Bool-cases, ◌-◌,
  ◌<◌, ◌≤◌, leb, All, if◌then◌else◌, length, [], true, eq_iff, some, arith, ◌∷◌, ◌≡◌, String,
}
use open_supervisor.Prelude.Map.{Map}

-- Every text stands for itself.
abbrev pub Faithful : Map String → Type 0
Faithful m = (k v : String) → Map.get k m ≡ some v → v ≡ k

length-set-le :
    {V : Type 0} (k : String) (v : V) (m : Map V) → length (Map.set k v m) ≤ length m + 1
unfolding Map.set
length-set-le k v [] = omega arith
length-set-le k v ((j, w) ∷ m) = ground (arith, length-set-le k v m)

length-set_fresh :
    {V : Type 0} (k : String) (v : V) (m : Map V)
    → Map.get k m ≡ none
    → length (Map.set k v m) ≡ length m + 1
unfolding Map.set Map.get
length-set_fresh k v [] e = refl
length-set_fresh k v ((j, w) ∷ m) e = ground (arith, length-set_fresh k v m)

length-delete-le : {V : Type 0} (k : String) (m : Map V) → length (Map.delete k m) ≤ length m
unfolding Map.delete
length-delete-le k [] = omega arith
length-delete-le k ((j, w) ∷ m) = ground (arith, length-delete-le k m)

set-Faithful : (k : String) (m : Map String) → Faithful m → Faithful (Map.set k k m)
set-Faithful k m f j v e = ground (arith, Map.get-set k j k m, f j v, eq_iff k j)

evict-Faithful : (m : Map String) → Faithful m → Faithful (evict m)
unfolding evict
evict-Faithful [] f = f
evict-Faithful ((first, v) ∷ m) f =
    λ j w e. ground (arith, Map.get-delete first j ((first, v) ∷ m), f j w)

existing_same :
    (str : String) (m : Map String) (v : String) → Faithful m → existing str m ≡ some v → v ≡ str
existing_same str m v f e = ground (arith, f str v)

-- `intern` gives back the very text it was asked for, and every text in the pool still stands for
-- itself.
pub intern-Faithful :
    (p : StringPool) (str : String)
    → Faithful p.pool
    → ((intern p str).1 ≡ str) × Faithful (intern p str).0.pool
unfolding intern
intern-Faithful p str f = elim (Bool-cases (ltb max_length (utf16_length str))) [
  | inl long ↦ rw long (refl, f)
  | inr short ↦ rw short (elim (Option-cases (existing str p.pool)) [
    | inl e ↦
        rw (e, intern)
          (
            refl,
            set-Faithful str (if leb max_size (length p.pool) then evict p.pool else p.pool) room,
          )
    | inr (v, e) ↦ rw (e, intern) (existing_same str p.pool v f e, f)
  ])
]
  where
    room : Faithful (if leb max_size (length p.pool) then evict p.pool else p.pool)
    room = elim (Bool-cases (leb max_size (length p.pool))) [
      | inl full ↦ rw full (evict-Faithful p.pool f)
      | inr free ↦ rw free f
    ]

-- No text of the pool is empty, and there are at most 1000 of them.
abbrev pub NonEmpty : Map String → Type 0
NonEmpty = All λ (e : String × String). is_truthy e.0 ≡ true

set-NonEmpty :
    (k v : String) (m : Map String) → is_truthy k ≡ true → NonEmpty m → NonEmpty (Map.set k v m)
unfolding Map.set
set-NonEmpty k v [] h n = (h, tt)
set-NonEmpty k v ((j, w) ∷ m) h n = ground (arith, set-NonEmpty k v m h n.1)

delete-NonEmpty : (k : String) (m : Map String) → NonEmpty m → NonEmpty (Map.delete k m)
unfolding Map.delete
delete-NonEmpty k [] n = tt
delete-NonEmpty k ((j, w) ∷ m) n = ground (arith, delete-NonEmpty k m n.1)

evict-NonEmpty : (m : Map String) → NonEmpty m → NonEmpty (evict m)
unfolding evict
evict-NonEmpty [] n = tt
evict-NonEmpty ((first, v) ∷ m) n = rw n.0 (delete-NonEmpty first ((first, v) ∷ m) n)

length-evict : (m : Map String) → NonEmpty m → length (evict m) ≤ length m - 1
unfolding evict Map.delete
length-evict [] n = omega arith
length-evict ((first, v) ∷ m) n =
    rw n.0 (rw (eq_refl first) (omega (arith, length-delete-le first m)))

-- Interning texts that are not empty keeps the pool at 1000 texts at most.
pub intern_bounded :
    (p : StringPool) (str : String)
    → is_truthy str ≡ true
    → NonEmpty p.pool
    → length p.pool ≤ max_size
    → NonEmpty (intern p str).0.pool × (length (intern p str).0.pool ≤ max_size)
unfolding intern
intern_bounded p str h n le = elim (Bool-cases (ltb max_length (utf16_length str))) [
  | inl long ↦ rw long (n, le)
  | inr short ↦ rw short (elim (Option-cases (existing str p.pool)) [
    | inl e ↦
        rw (e, intern)
          (set-NonEmpty str str _ h room.0, omega (arith, room.1, length-set-le str str kept))
    | inr (v, e) ↦ rw (e, intern) (n, le)
  ])
]
  where
    kept : Map String
    kept = if leb max_size (length p.pool) then evict p.pool else p.pool

    room : NonEmpty kept × (length kept < max_size)
    room = elim (Bool-cases (leb max_size (length p.pool))) [
      | inl full ↦ rw full (evict-NonEmpty p.pool n, omega (arith, le, length-evict p.pool n))
      | inr free ↦ rw free (n, ground arith)
    ]

-- What `existing` makes of what the pool has.
abbrev read : Option String → Option String
read none = none
read (some v) = if is_truthy v then some v else none

oldest : (m rest : Map String) → m ≡ ("", "") ∷ rest → evict m ≡ m
unfolding evict
oldest m rest e = rw e refl

-- Once the empty text is the oldest one, nothing is evicted: a full pool grows with every text that is not
-- empty, has at most 100 UTF-16 units and is not in the pool.
pub intern_unbounded :
    (p : StringPool) (rest : Map String) (str : String)
    → p.pool ≡ ("", "") ∷ rest
    → max_size ≤ length p.pool
    → is_truthy str ≡ true
    → utf16_length str ≤ max_length
    → Map.get str p.pool ≡ none
    → length (intern p str).0.pool ≡ length p.pool + 1
unfolding intern
intern_unbounded p rest str e full h short fresh =
    rw
      (
        ltb-no,
        absent,
        le→leb _ _ full,
        oldest p.pool rest e,
        length-set_fresh str str p.pool fresh,
        intern,
      )
      refl
  where
    ltb-no : ltb max_length (utf16_length str) ≡ false
    ltb-no = ground arith

    absent : existing str p.pool ≡ none
    absent = ap read fresh
