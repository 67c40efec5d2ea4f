-- ===== src/Recovery/Regex.antt =====
-- The regular expressions of src/core/recovery/patterns.ts and src/shared/errors: alternatives of literal
-- text, `.?` and `.*`, with the flag `i`. A text is its UTF-16 code units, as JavaScript matches them.
use open_supervisor.Prelude.{
  ◌%◌, ◌/◌, ◌-◌, ◌==◌, ◌+◌, false, ◌&&◌, ◌||◌, true, ltb, any, not, leb, ◌++◌, ◌∷◌, map, Bool, [],
  if◌then◌else◌, String, List, ℕ,
}
use Prim.Native.Char.{code}

pub data Atom : Type 0 where
  lit : ℕ → Atom
  maybe_any : Atom
  any_many : Atom

abbrev pub units : String → List ℕ
units String.[] = []
units (String.◌∷◌ c s) =
    if ltb (code c) 65536
    then code c ∷ units s
    else (55296 + (code c - 65536) / 1024) ∷ (56320 + (code c - 65536) % 1024) ∷ units s

-- The flag `i` on the letters that the patterns have.
abbrev pub lower : ℕ → ℕ
lower c = if leb 65 c && leb c 90 then c + 32 else c

-- What `.` matches: no line end.
abbrev pub is_dot : ℕ → Bool
is_dot c = not (c == 10 || c == 13 || c == 8232 || c == 8233)

-- A match at the start of the text.
unfoldable pub match_at : List Atom → List ℕ → Bool
match_at [] s = true
match_at (lit c ∷ atoms) [] = false
match_at (lit c ∷ atoms) (d ∷ s) = (lower d == lower c) && match_at atoms s
match_at (maybe_any ∷ atoms) [] = match_at atoms []
match_at (maybe_any ∷ atoms) (d ∷ s) = match_at atoms (d ∷ s) || (is_dot d && match_at atoms s)
match_at (any_many ∷ atoms) [] = match_at atoms []
match_at (any_many ∷ atoms) (d ∷ s) =
    match_at atoms (d ∷ s) || (is_dot d && match_at (any_many ∷ atoms) s)

abbrev pub Pattern : Type 0
Pattern = List (List Atom)

-- `pattern.test(text)`: some alternative matches somewhere.
unfoldable pub test : Pattern → List ℕ → Bool
unfolding match_at
test alternatives [] = any (λ atoms. match_at atoms []) alternatives
test alternatives (c ∷ s) =
    any (λ atoms. match_at atoms (c ∷ s)) alternatives || test alternatives s

abbrev pub lits : String → List Atom
lits s = map lit (units s)

-- The texts of an alternative with an atom between them.
abbrev pub parted : Atom → List String → List Atom
parted atom [] = []
parted atom (t ∷ []) = lits t
parted atom (t ∷ u ∷ ts) = lits t ++ (atom ∷ parted atom (u ∷ ts))
