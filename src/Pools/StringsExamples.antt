-- ===== src/Pools/StringsExamples.antt =====
-- The theorems about src/core/pool/string-pool.ts at concrete inputs.
use open_supervisor.Prelude.Map.{Map}
use Prim.Native.String.{◌++◌}
use open_supervisor.Prelude.{List, String, ◌+◌, eq_iff, refl, arith, [], ◌∷◌, length, ◌≡◌}
use open_supervisor.Prelude.Map
use open_supervisor.Pools.StringsLaws.{intern_unbounded, Faithful}
use open_supervisor.Prelude.Map
use open_supervisor.Pools.Strings.{StringPool, new, intern}

abbrev one : StringPool
one = record new { pool = ("a", "a") ∷ [] }

one-Faithful : Faithful one.pool
unfolding new Map.get
one-Faithful k v e = ground (arith, eq_iff "a" k)

abbrev digits : List String
digits = "0" ∷ "1" ∷ "2" ∷ "3" ∷ "4" ∷ "5" ∷ "6" ∷ "7" ∷ "8" ∷ "9" ∷ []

-- Every digit put before every text.
abbrev each : List String → List String → List String → List String
each [] all texts = []
each (d ∷ ds) all [] = each ds all all
each (d ∷ ds) all (t ∷ ts) = (d ++ t) ∷ each (d ∷ ds) all ts

abbrev doubled : List String → Map String
doubled [] = []
doubled (t ∷ ts) = (t, t) ∷ doubled ts

-- The texts of three digits.
abbrev numbers : List String
numbers = let two : List String = each digits digits digits in each digits two two

abbrev stuffed : StringPool
stuffed = record new { pool = ("", "") ∷ doubled numbers }

intern_unbounded_example : length (intern stuffed "bc").0.pool ≡ length stuffed.pool + 1
unfolding new Map.get
intern_unbounded_example =
    intern_unbounded stuffed (doubled numbers) "bc" refl (omega arith) refl (omega arith) refl
