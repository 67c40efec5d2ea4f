-- ===== src/Pools/ObjectsLaws.antt =====
-- src/core/pool/object-pool.ts: nobody shares an object, and the pool stays within its size.
use Prim.Native.Nat.{zero}
use open_supervisor.Pools.Objects.{
  clears, acquires_one, prewarms, releases_one, clear, acquire, Call, run, release, new, step,
  prewarm, put_back, add, contains, remove, ObjectPool, acquire_from,
}
use open_supervisor.Prelude.{
  dec_lt, false, inr, inl, Bool-cases, ltb, Bool, suc, ap, refl, [], ◌==◌, ◌<◌, arith,
  if◌then◌else◌, ◌↔◌, ◌∷◌, length, true, ◌≤◌, ◌≡◌, ◌≢◌, ◌+◌, List, ℕ,
}

-- How often an object stands in a list.
abbrev pub times : ℕ → List ℕ → ℕ
times obj [] = 0
times obj (x ∷ xs) = (if x == obj then 1 else 0) + times obj xs

pub record IsSound (p : ObjectPool) : Type 0 where
  pub apart : (obj : ℕ) → times obj p.available + times obj p.in_use ≤ 1
  pub made : (obj : ℕ) → p.created ≤ obj → times obj p.available + times obj p.in_use ≡ 0
  pub within : length p.available ≤ p.max_size
  pub counted : p.hits + p.misses ≡ p.acquires

times-contains : (obj : ℕ) (xs : List ℕ) → (contains obj xs ≡ true) ↔ (0 < times obj xs)
times-contains obj [] = ground arith
times-contains obj (x ∷ xs) = ground (arith, times-contains obj xs)

times-add : (obj o : ℕ) (xs : List ℕ) → times o xs ≡ 0 → times obj (add o xs) ≡ times obj (o ∷ xs)
times-add obj o xs h = ground (arith, times-contains o xs)

times-remove_self : (o : ℕ) (xs : List ℕ) → times o (remove o xs) ≡ 0
times-remove_self o [] = refl
times-remove_self o (x ∷ xs) = ground (arith, times-remove_self o xs)

times-remove_ne : (obj o : ℕ) (xs : List ℕ) → obj ≢ o → times obj (remove o xs) ≡ times obj xs
times-remove_ne obj o [] h = refl
times-remove_ne obj o (x ∷ xs) h = ground (arith, times-remove_ne obj o xs h)

acquire_from-IsSound :
    (xs : List ℕ) (p : ObjectPool)
    → p.available ≡ xs
    → IsSound p
    → (times (acquire_from xs p).1 p.in_use ≡ 0) × IsSound (acquire_from xs p).0
unfolding acquire_from
acquire_from-IsSound (o ∷ rest) p e s =
    let here : times o p.available ≡ times o (o ∷ rest) = ap (times o) e in
    let free : times o p.in_use ≡ 0 = ground (arith, here, s.apart o) in
    (
      free,
      record {
        apart = λ obj. ground (arith, times-add obj o p.in_use free, s.apart obj, ap (times obj) e);
        made =
            λ obj h. ground (arith, times-add obj o p.in_use free, s.made obj h, ap (times obj) e);
        within = omega (arith, ap length e, s.within);
        counted = omega (arith, s.counted);
      },
    )
acquire_from-IsSound [] p e s =
    let free : times p.created p.in_use ≡ 0 = omega (arith, s.made p.created (omega arith)) in
    (
      free,
      record {
        apart = λ obj. ground (
          arith,
          times-add obj p.created p.in_use free,
          s.apart obj,
          s.made p.created (omega arith),
          ap (times obj) e,
        );
        made = λ obj h. ground (
          arith,
          times-add obj p.created p.in_use free,
          s.made obj (omega arith),
          ap (times obj) e,
        );
        within = s.within;
        counted = omega (arith, s.counted);
      },
    )

put_back-IsSound :
    (p : ObjectPool) (obj : ℕ) (reset_ok : Bool)
    → IsSound p
    → times obj p.available + times obj p.in_use ≡ 0
    → obj < p.created
    → IsSound (put_back p obj reset_ok)
unfolding put_back
put_back-IsSound p obj reset_ok s h lt = record {
  apart = λ o. ground (arith, s.apart o);
  made = λ o k. ground (arith, s.made o);
  within = ground (arith, s.within);
  counted = ground (arith, s.counted);
}

times-remove-le : (obj o : ℕ) (xs : List ℕ) → times obj (remove o xs) ≤ times obj xs
times-remove-le obj o [] = omega arith
times-remove-le obj o (x ∷ xs) = ground (arith, times-remove-le obj o xs)

-- An object in use was made, and is not available.
in_use_made :
    (p : ObjectPool) (obj : ℕ)
    → IsSound p
    → 0 < times obj p.in_use
    → (obj < p.created) × (times obj p.available ≡ 0)
in_use_made p obj s h = elim (dec_lt obj p.created) [
  | yes lt ↦ (lt, omega (arith, s.apart obj))
  | no ge ↦ absurd (omega (arith, s.made obj (omega arith)))
]

taken_out :
    (p : ObjectPool) (obj n : ℕ)
    → IsSound p
    → IsSound (record p { releases = n; in_use = remove obj p.in_use })
taken_out p obj n s = record {
  apart = λ o. omega (arith, times-remove-le o obj p.in_use, s.apart o);
  made = λ o h. omega (arith, times-remove-le o obj p.in_use, s.made o h);
  within = s.within;
  counted = s.counted;
}

release-IsSound :
    (p : ObjectPool) (obj : ℕ) (reset_ok : Bool) → IsSound p → IsSound (release p obj reset_ok)
unfolding release
release-IsSound p obj reset_ok s = elim (Bool-cases (contains obj p.in_use)) [
  | inr away ↦ rw away s
  | inl here ↦
      let (lt, gone) = in_use_made p obj s ((times-contains obj p.in_use).0 here) in
      rw here (
        put_back-IsSound _ obj reset_ok (taken_out p obj (p.releases + 1) s)
          (omega (arith, gone, times-remove_self obj p.in_use)) lt)
]

prewarm-IsSound : (n : ℕ) (p : ObjectPool) → IsSound p → IsSound (prewarm n p)
unfolding prewarm
prewarm-IsSound zero p s = s
prewarm-IsSound (suc n) p s = elim (Bool-cases (ltb (length p.available) p.max_size)) [
  | inl room ↦ rw room (prewarm-IsSound n _ (grown room))
  | inr full ↦ rw full s
]
  where
    grown :
        ltb (length p.available) p.max_size ≡ true
        → IsSound (record p { created = p.created + 1; available = p.created ∷ p.available })
    grown room = record {
      apart = λ obj. ground (arith, s.apart obj, s.made p.created (omega arith));
      made = λ obj h. ground (arith, s.made obj (omega arith));
      within = ground arith;
      counted = s.counted;
    }

step-IsSound : (p : ObjectPool) (c : Call) → IsSound p → IsSound (step p c)
unfolding step acquire clear
step-IsSound p acquires_one s = (acquire_from-IsSound p.available p refl s).1
step-IsSound p (releases_one obj reset_ok) s = release-IsSound p obj reset_ok s
step-IsSound p clears s = record {
  apart = λ obj. omega arith;
  made = λ obj h. omega arith;
  within = omega arith;
  counted = s.counted;
}
step-IsSound p (prewarms n) s = prewarm-IsSound n p s

run-IsSound : (p : ObjectPool) (cs : List Call) → IsSound p → IsSound (run p cs)
unfolding run
run-IsSound p [] s = s
run-IsSound p (c ∷ cs) s = run-IsSound (step p c) cs (step-IsSound p c s)

new-IsSound : (n : ℕ) → IsSound (new n)
unfolding new
new-IsSound n = record {
  apart = λ obj. omega arith;
  made = λ obj h. omega arith;
  within = omega arith;
  counted = omega arith;
}

-- After any calls on a new pool, no object is both available and in use or twice in either, the
-- available ones are at most the maximum size, and every acquisition is a hit or a miss.
pub run-new-IsSound : (max_size : ℕ) (cs : List Call) → IsSound (run (new max_size) cs)
run-new-IsSound max_size cs = run-IsSound (new max_size) cs (new-IsSound max_size)

-- So after any calls the object that `acquire` gives is in use by nobody.
pub acquire_exclusive :
    (max_size : ℕ) (cs : List Call)
    → let p = run (new max_size) cs in times (acquire p).1 p.in_use ≡ 0
unfolding acquire
acquire_exclusive max_size cs =
    (acquire_from-IsSound (run (new max_size) cs).available _ refl (run-new-IsSound max_size cs)).0

contains-release :
    (p : ObjectPool) (obj : ℕ) (reset_ok : Bool)
    → contains obj (release p obj reset_ok).in_use ≡ false
unfolding release put_back
contains-release p obj reset_ok =
    ground (arith, times-remove_self obj p.in_use, times-contains obj (remove obj p.in_use))

-- A release that follows a release of the same object, or that comes with no acquisition, changes
-- nothing: the object is not made available twice.
pub release_twice :
    (p : ObjectPool) (obj : ℕ) (first second : Bool)
    → release (release p obj first) obj second ≡ release p obj first
release_twice p obj first second =
    let q = release p obj first in idle q (contains-release p obj first)
  where
    idle : (q : ObjectPool) → contains obj q.in_use ≡ false → release q obj second ≡ q
    idle q h = unfold release in rw h
