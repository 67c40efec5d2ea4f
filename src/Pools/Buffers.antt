-- ===== src/Pools/Buffers.antt =====
-- src/core/pool/buffer-pool.ts. A buffer is its identity with its length in bytes.
use Prim.Native.Nat.{zero}
use open_supervisor.Prelude.{
  suc, ltb, length, ◌+◌, ◌==◌, leb, some, none, if◌then◌else◌, Option, ◌∷◌, find, [], ℕ, List, map,
}

pub record Buffer : Type 0 where
  pub byte_length : ℕ
  pub ident : ℕ

pub record BufferPool : Type 0 where
  pub pools : List (ℕ × List Buffer)
  pub acquires : ℕ
  pub releases : ℕ
  pub hits : ℕ
  pub misses : ℕ
  -- How many buffers were made.
  pub made : ℕ

abbrev pub sizes : List ℕ
sizes = 1024 ∷ 4096 ∷ 16384 ∷ 65536 ∷ []

abbrev pub max_per_size : ℕ
max_per_size = 50

-- `Map.get` and `Map.set` at a number.
unfoldable pub pool_of : ℕ → List (ℕ × List Buffer) → Option (List Buffer)
pool_of size [] = none
pool_of size ((s, buffers) ∷ rest) = if s == size then some buffers else pool_of size rest

unfoldable pub put_pool : ℕ → List Buffer → List (ℕ × List Buffer) → List (ℕ × List Buffer)
put_pool size buffers [] = (size, buffers) ∷ []
put_pool size buffers ((s, old) ∷ rest) =
    if s == size then (s, buffers) ∷ rest else (s, old) ∷ put_pool size buffers rest

unfoldable pub new : BufferPool
new = record {
  pools = map (λ size. (size, [])) sizes;
  acquires = 0;
  releases = 0;
  hits = 0;
  misses = 0;
  made = 0;
}

-- The first size that is enough, else the last one.
unfoldable pub pool_size : ℕ → ℕ
pool_size min_size = elim (find (λ s. leb min_size s) sizes) [ none ↦ 65536 | some s ↦ s ]

-- `Array.pop`: the head of a list is the end of the array. A size with no pool is a fault, `none`.
unfoldable pub acquire_sized : BufferPool → ℕ → Option (List Buffer) → Option (BufferPool × Buffer)
acquire_sized p size none = none
acquire_sized p size (some (buffer ∷ rest)) = some (
  record p { pools = put_pool size rest p.pools; acquires = p.acquires + 1; hits = p.hits + 1 },
  buffer,
)
acquire_sized p size (some []) = some (
  record p { acquires = p.acquires + 1; misses = p.misses + 1; made = p.made + 1 },
  record { byte_length = size; ident = p.made },
)

unfoldable pub acquire : BufferPool → ℕ → Option (BufferPool × Buffer)
acquire p min_size = acquire_sized p (pool_size min_size) (pool_of (pool_size min_size) p.pools)

unfoldable pub release : BufferPool → Buffer → BufferPool
release p buffer = elim (pool_of buffer.byte_length p.pools) [
  | none ↦ record p { releases = p.releases + 1 }
  | some pool ↦
      if ltb (length pool) max_per_size
      then record p {
        releases = p.releases + 1;
        pools = put_pool buffer.byte_length (buffer ∷ pool) p.pools;
      }
      else record p { releases = p.releases + 1 }
]

unfoldable pub clear : BufferPool → BufferPool
clear p = record p { pools = map (λ (e : ℕ × List Buffer). (e.0, [])) p.pools }

-- The inner loop of `prewarm`: at most `count` new buffers of a size, while the pool has room.
unfoldable pub prewarm_size : ℕ → ℕ → BufferPool → BufferPool
prewarm_size zero size p = p
prewarm_size (suc count) size p = elim (pool_of size p.pools) [
  | none ↦ p
  | some pool ↦
      if ltb (length pool) max_per_size
      then prewarm_size count size (record p {
        pools = put_pool size (record { byte_length = size; ident = p.made } ∷ pool) p.pools;
        made = p.made + 1;
      })
      else p
]

abbrev pub prewarm_sizes : ℕ → List ℕ → BufferPool → BufferPool
prewarm_sizes count [] p = p
prewarm_sizes count (size ∷ rest) p = prewarm_sizes count rest (prewarm_size count size p)

unfoldable pub prewarm : ℕ → BufferPool → BufferPool
unfolding prewarm_size
prewarm count p = prewarm_sizes count sizes p
