-- ===== src/Pools/BuffersLaws.antt =====
-- src/core/pool/buffer-pool.ts: what `acquire` gives, and how full the pools are.
use open_supervisor.Pools.Buffers.{
  new, max_per_size, sizes, release, Buffer, acquire_sized, acquire, BufferPool, put_pool, pool_of,
  pool_size,
}
use open_supervisor.Prelude.{
  ltb→lt, ltb, ap, inr, inl, Bool-cases, [], refl, ◌∷◌, Option-cases, ◌+◌, ◌∙◌, length, true, some,
  All, arith, ◌≡◌, ◌==◌, map, ◌<◌, any, ◌≤◌, List, ℕ,
}

-- The pool of each size holds buffers of that size only, and at most the maximum of them.
abbrev pub Stocked : ℕ × List Buffer → Type 0
Stocked e = All (λ b. b.byte_length ≡ e.0) e.1 × (length e.1 ≤ max_per_size)

pub record IsSound (p : BufferPool) : Type 0 where
  pub sized : map (λ (e : ℕ × List Buffer). e.0) p.pools ≡ sizes
  pub stocked : All Stocked p.pools
  pub counted : p.hits + p.misses ≡ p.acquires

find_pool :
    (size : ℕ) (m : List (ℕ × List Buffer))
    → any (λ s. s == size) (map (λ (e : ℕ × List Buffer). e.0) m) ≡ true
    → All Stocked m
    → (buffers : List Buffer) × (pool_of size m ≡ some buffers) × Stocked (size, buffers)
unfolding pool_of
find_pool size [] h s = cc
find_pool size ((k, buffers) ∷ m) h s = elim (Bool-cases (k == size)) [
  | inl hit ↦ let e : k ≡ size = ground arith in (buffers, rw hit, (rw (← e) (s.0.0), s.0.1))
  | inr miss ↦ rw miss (find_pool size m (rw miss at h) s.1)
]

put_pool-Stocked :
    (size : ℕ) (buffers : List Buffer) (m : List (ℕ × List Buffer))
    → Stocked (size, buffers)
    → All Stocked m
    → All Stocked (put_pool size buffers m)
unfolding put_pool
put_pool-Stocked size buffers [] h s = (h, tt)
put_pool-Stocked size buffers ((k, old) ∷ m) h s = elim (Bool-cases (k == size)) [
  | inl hit ↦ let e : k ≡ size = ground arith in rw hit ((rw e h.0, h.1), s.1)
  | inr miss ↦ rw miss (s.0, put_pool-Stocked size buffers m h s.1)
]

put_pool_sizes :
    (size : ℕ) (buffers : List Buffer) (m : List (ℕ × List Buffer))
    → any (λ s. s == size) (map (λ (e : ℕ × List Buffer). e.0) m) ≡ true
    → map (λ (e : ℕ × List Buffer). e.0) (put_pool size buffers m)
      ≡ map (λ (e : ℕ × List Buffer). e.0) m
unfolding put_pool
put_pool_sizes size buffers [] h = cc
put_pool_sizes size buffers ((k, old) ∷ m) h = elim (Bool-cases (k == size)) [
  | inl hit ↦ rw hit
  | inr miss ↦ rw miss (ap (◌∷◌ k) (put_pool_sizes size buffers m (rw miss at h)))
]

pool_size-any : (n : ℕ) → any (λ s. s == pool_size n) sizes ≡ true
unfolding pool_size
pool_size-any n = ground arith

-- What an acquisition from a sound pool gives.
abbrev Gives : BufferPool → ℕ → Type 0
Gives p n =
    (q : BufferPool) × (b : Buffer) × (acquire p n ≡ some (q, b))
    × (b.byte_length ≡ pool_size n)
    × IsSound q

acquire_sized-Gives :
    (p : BufferPool) (size : ℕ) (pool : List Buffer)
    → IsSound p
    → any (λ s. s == size) sizes ≡ true
    → Stocked (size, pool)
    → (q : BufferPool) × (b : Buffer) × (acquire_sized p size (some pool) ≡ some (q, b))
      × (b.byte_length ≡ size)
      × IsSound q
unfolding acquire_sized
acquire_sized-Gives p size [] s known h = (
  record p { acquires = p.acquires + 1; misses = p.misses + 1; made = p.made + 1 },
  record { byte_length = size; ident = p.made },
  refl,
  refl,
  record { sized = s.sized; stocked = s.stocked; counted = omega (arith, s.counted) },
)
acquire_sized-Gives p size (b ∷ rest) s known h = (
  record p { pools = put_pool size rest p.pools; acquires = p.acquires + 1; hits = p.hits + 1 },
  b,
  refl,
  h.0.0,
  record {
    sized = put_pool_sizes size rest p.pools (rw s.sized known) ∙ s.sized;
    stocked = put_pool-Stocked size rest p.pools (h.0.1, omega (arith, h.1)) s.stocked;
    counted = omega (arith, s.counted);
  },
)

acquire-Gives : (p : BufferPool) (n : ℕ) → IsSound p → Gives p n
unfolding acquire
acquire-Gives p n s =
    let (pool, e, h) = find_pool (pool_size n) p.pools (rw s.sized (pool_size-any n)) s.stocked in
    rw e (acquire_sized-Gives p (pool_size n) pool s (pool_size-any n) h)

pool_size-le : (n : ℕ) → n ≤ 65536 → n ≤ pool_size n
unfolding pool_size
pool_size-le n h = ground arith

pool_size-max : (n : ℕ) → 65536 < n → pool_size n ≡ 65536
unfolding pool_size
pool_size-max n h = ground arith

-- For a request of at most 64 KB a sound pool gives a buffer of at least the asked size, and stays
-- sound.
pub acquire_enough :
    (p : BufferPool) (n : ℕ)
    → IsSound p
    → n ≤ 65536
    → (q : BufferPool) × (b : Buffer) × (acquire p n ≡ some (q, b))
      × (n ≤ b.byte_length)
      × IsSound q
acquire_enough p n s h =
    let (q, b, e, size, t) = acquire-Gives p n s in
    (q, b, e, omega (arith, size, pool_size-le n h), t)

-- For a request of more than 64 KB it gives a buffer of 64 KB, smaller than asked.
pub acquire_too_small :
    (p : BufferPool) (n : ℕ)
    → IsSound p
    → 65536 < n
    → (q : BufferPool) × (b : Buffer) × (acquire p n ≡ some (q, b))
      × (b.byte_length ≡ 65536)
      × (b.byte_length < n)
acquire_too_small p n s h =
    let (q, b, e, size, t) = acquire-Gives p n s in
    (q, b, e, size ∙ pool_size-max n h, omega (arith, size, pool_size-max n h))

found_pool :
    (size : ℕ) (m : List (ℕ × List Buffer)) (pool : List Buffer)
    → pool_of size m ≡ some pool
    → All Stocked m
    → (any (λ s. s == size) (map (λ (e : ℕ × List Buffer). e.0) m) ≡ true) × Stocked (size, pool)
unfolding pool_of
found_pool size [] pool e s = cc
found_pool size ((k, buffers) ∷ m) pool e s = elim (Bool-cases (k == size)) [
  | inl hit ↦
      let same : k ≡ size = ground arith in
      let here : buffers ≡ pool = ground arith in rw hit (refl, rw (← here, ← same) s.0)
  | inr miss ↦ rw miss (found_pool size m pool (rw miss at e) s.1)
]

-- What is released stays within the pool of its length; a buffer of another length is dropped.
pub release-IsSound : (p : BufferPool) (b : Buffer) → IsSound p → IsSound (release p b)
unfolding release
release-IsSound p b s = elim (Option-cases (pool_of b.byte_length p.pools)) [
  | inl e ↦ rw (e, release) (record { sized = s.sized; stocked = s.stocked; counted = s.counted })
  | inr (pool, e) ↦
      let (known, h) = found_pool b.byte_length p.pools pool e s.stocked in
      elim (Bool-cases (ltb (length pool) max_per_size)) [
        | inl room ↦
            rw (e, release)
              (rw room (record {
                sized = put_pool_sizes b.byte_length (b ∷ pool) p.pools known ∙ s.sized;
                stocked =
                    put_pool-Stocked b.byte_length (b ∷ pool) p.pools ((refl, h.0), ltb→lt _ _ room)
                      s.stocked;
                counted = s.counted;
              }))
        | inr full ↦
            rw (e, release)
              (rw full (record { sized = s.sized; stocked = s.stocked; counted = s.counted }))
      ]
]

pub new-IsSound : IsSound new
unfolding new
new-IsSound = record { sized = refl; stocked = omega arith; counted = refl }
