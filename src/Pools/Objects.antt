-- ===== src/Pools/Objects.antt =====
-- src/core/pool/object-pool.ts. An object is its identity: objects are numbered in the order in which
-- the factory makes them, over the life of the program. The head of `available` is the end of the
-- array. Whether the object's own `reset` throws is an argument of `release`.
use Prim.Native.Nat.{zero}
use open_supervisor.Prelude.{
  length, ◌==◌, ltb, ◌+◌, any, not, ◌∷◌, suc, if◌then◌else◌, filter, Bool, [], List, ℕ,
}

pub record ObjectPool : Type 0 where
  pub available : List ℕ
  pub in_use : List ℕ
  pub max_size : ℕ
  pub created : ℕ
  pub acquires : ℕ
  pub releases : ℕ
  pub hits : ℕ
  pub misses : ℕ
  pub disposed : ℕ

unfoldable pub new : ℕ → ObjectPool
new max_size = record {
  available = [];
  in_use = [];
  max_size = max_size;
  created = 0;
  acquires = 0;
  releases = 0;
  hits = 0;
  misses = 0;
  disposed = 0;
}

abbrev pub contains : ℕ → List ℕ → Bool
contains obj xs = any (λ x. x == obj) xs

-- `Set.add` and `Set.delete`.
abbrev pub add : ℕ → List ℕ → List ℕ
add obj xs = if contains obj xs then xs else obj ∷ xs

abbrev pub remove : ℕ → List ℕ → List ℕ
remove obj xs = filter (λ x. not (x == obj)) xs

-- The object that the pool gives, from the list of available ones.
unfoldable pub acquire_from : List ℕ → ObjectPool → ObjectPool × ℕ
acquire_from (obj ∷ rest) p = (
  record p {
    available = rest;
    in_use = add obj p.in_use;
    acquires = p.acquires + 1;
    hits = p.hits + 1;
  },
  obj,
)
acquire_from [] p = (
  record p {
    in_use = add p.created p.in_use;
    created = p.created + 1;
    acquires = p.acquires + 1;
    misses = p.misses + 1;
  },
  p.created,
)

unfoldable pub acquire : ObjectPool → ObjectPool × ℕ
unfolding acquire_from
acquire p = acquire_from p.available p

-- The end of `release`, once the object is out of `inUse`.
unfoldable pub put_back : ObjectPool → ℕ → Bool → ObjectPool
put_back p obj reset_ok =
    if reset_ok
    then if ltb (length p.available) p.max_size
      then record p { available = obj ∷ p.available }
      else record p { disposed = p.disposed + 1 }
    else p

unfoldable pub release : ObjectPool → ℕ → Bool → ObjectPool
unfolding put_back
release p obj reset_ok =
    if contains obj p.in_use
    then put_back (record p { releases = p.releases + 1; in_use = remove obj p.in_use }) obj
        reset_ok
    else p

unfoldable pub clear : ObjectPool → ObjectPool
clear p = record p { available = []; in_use = [] }

-- `count` rounds at most; none once the pool is full.
unfoldable pub prewarm : ℕ → ObjectPool → ObjectPool
prewarm zero p = p
prewarm (suc count) p =
    let rest =
      prewarm count (record p { created = p.created + 1; available = p.created ∷ p.available }) in
    if ltb (length p.available) p.max_size then rest else p

-- The calls of a client, and the pool after them.
pub data Call : Type 0 where
  acquires_one : Call
  releases_one : ℕ → Bool → Call
  clears : Call
  prewarms : ℕ → Call

unfoldable pub step : ObjectPool → Call → ObjectPool
step p acquires_one = (acquire p).0
step p (releases_one obj reset_ok) = release p obj reset_ok
step p clears = clear p
step p (prewarms count) = prewarm count p

unfoldable pub run : ObjectPool → List Call → ObjectPool
run p [] = p
run p (c ∷ cs) = run (step p c) cs
