-- ===== src/Pools/Strings.antt =====
-- src/core/pool/string-pool.ts. The pool is a `Map` from a text to itself. A text that is empty is
-- falsy, so it is neither found nor evicted. `length` counts UTF-16 code units.
use open_supervisor.Prelude.Map
use open_supervisor.Prelude.{
  none, length, ◌&&◌, some, true, leb, false, ltb, ◌+◌, if◌then◌else◌, Bool, Option, ◌∷◌, String,
  List, [], ℕ,
}
use open_supervisor.Prelude.Map.{Map}
use Prim.Native.Char.{code}

pub record StringPool : Type 0 where
  pub pool : Map String
  pub interns : ℕ
  pub hits : ℕ
  pub misses : ℕ
  pub skipped : ℕ

abbrev pub max_length : ℕ
max_length = 100

abbrev pub max_size : ℕ
max_size = 1000

abbrev pub utf16_length : String → ℕ
utf16_length String.[] = 0
utf16_length (String.◌∷◌ c s) = (if ltb (code c) 65536 then 1 else 2) + utf16_length s

abbrev pub is_truthy : String → Bool
is_truthy String.[] = false
is_truthy (String.◌∷◌ c s) = true

unfoldable pub new : StringPool
new = record { pool = []; interns = 0; hits = 0; misses = 0; skipped = 0 }

-- The eviction of the oldest text, `keys().next().value`, if that is truthy.
unfoldable pub evict : Map String → Map String
evict [] = []
evict ((first, v) ∷ m) =
    if is_truthy first then Map.delete first ((first, v) ∷ m) else (first, v) ∷ m

-- A truthy value that the pool has for the text.
abbrev pub existing : String → Map String → Option String
existing str m = elim (Map.get str m) [
  | none ↦ none
  | some v ↦ if is_truthy v then some v else none
]

unfoldable pub intern : StringPool → String → StringPool × String
unfolding evict
intern p str =
    let q = record p { interns = p.interns + 1 } in
    if ltb max_length (utf16_length str)
    then (record q { skipped = p.skipped + 1 }, str)
    else elim (existing str p.pool) [
      | some found ↦ (record q { hits = p.hits + 1 }, found)
      | none ↦ (
        record q {
          misses = p.misses + 1;
          pool = Map.set str str (if leb max_size (length p.pool) then evict p.pool else p.pool);
        },
        str,
      )
    ]

unfoldable pub clear : StringPool → StringPool
clear p = record p { pool = [] }

unfoldable pub prewarm : List String → StringPool → StringPool
prewarm [] p = p
prewarm (str ∷ strs) p = prewarm strs (
    if leb (utf16_length str) max_length && ltb (length p.pool) max_size
    then record p { pool = Map.set str str p.pool }
    else p)
