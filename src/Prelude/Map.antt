-- ===== src/Prelude/Map.antt =====
-- A JavaScript `Map` with text keys: an association list in insertion order. `set` keeps the
-- place of a key that is there and puts a new one last; `delete` removes a key.
use mathlib.Core.Path.{◌≡◌, refl}
use mathlib.Core.Bool.{Bool, true, false}
use mathlib.Core.List.{List, [], ◌∷◌, map}
use mathlib.Core.Option.{Option, none, some}
use Prim.Native.String.{String}
use native.Mathlib.Omega.{arith}
use text.Mathlib.Text.{◌==◌ as str_eq}
use text.Mathlib.TextEquality.{eq_iff}
use open_supervisor.Prelude.Tests.{if◌then◌else◌}

abbrev pub Map {ℓ} : Type ℓ → Type ℓ
Map V = List (String × V)

module _ {ℓ} {V : Type ℓ} where
  unfoldable pub get : String → Map V → Option V
  get k [] = none
  get k ((j, v) ∷ m) = if str_eq j k then some v else get k m

  unfoldable pub set : String → V → Map V → Map V
  set k v [] = (k, v) ∷ []
  set k v ((j, w) ∷ m) = if str_eq j k then (j, v) ∷ m else (j, w) ∷ set k v m

  unfoldable pub delete : String → Map V → Map V
  delete k [] = []
  delete k ((j, v) ∷ m) = if str_eq j k then delete k m else (j, v) ∷ delete k m

  -- The read of a counter or a list that may be missing, `m.get(k) ?? d`.
  unfoldable pub get_or : String → V → Map V → V
  unfolding get
  get_or k d m = elim (get k m) [ none ↦ d | some v ↦ v ]

  unfoldable pub has : String → Map V → Bool
  unfolding get
  has k m = elim (get k m) [ none ↦ false | some v ↦ true ]

  abbrev pub keys : Map V → List String
  keys m = map (λ (e : String × V). e.0) m

  abbrev pub values : Map V → List V
  values m = map (λ (e : String × V). e.1) m

  -- A loop over the entries that deletes those that fail the test.
  unfoldable pub keep : (V → Bool) → Map V → Map V
  keep p [] = []
  keep p ((j, v) ∷ m) = if p v then (j, v) ∷ keep p m else keep p m

  pub get-set :
      (k j : String) (v : V) (m : Map V)
      → get j (set k v m) ≡ (if str_eq k j then some v else get j m)
  unfolding get set
  get-set k j v [] = refl
  get-set k j v ((i, w) ∷ m) = ground (arith, eq_iff k j, eq_iff i k, eq_iff i j, get-set k j v m)

  pub get-delete :
      (k j : String) (m : Map V) → get j (delete k m) ≡ (if str_eq k j then none else get j m)
  unfolding get delete
  get-delete k j [] = ground arith
  get-delete k j ((i, w) ∷ m) = ground (arith, eq_iff k j, eq_iff i k, eq_iff i j, get-delete k j m)

  pub get-set_self : (k : String) (v : V) (m : Map V) → get k (set k v m) ≡ some v
  get-set_self k v m = ground (arith, eq_iff k k, get-set k k v m)

  pub get-delete_self : (k : String) (m : Map V) → get k (delete k m) ≡ none
  get-delete_self k m = ground (arith, eq_iff k k, get-delete k k m)

  pub get_or-set :
      (k j : String) (d v : V) (m : Map V)
      → get_or j d (set k v m) ≡ (if str_eq k j then v else get_or j d m)
  unfolding get_or
  get_or-set k j d v m = ground (arith, get-set k j v m)

  pub get_or-set_self : (k : String) (d v : V) (m : Map V) → get_or k d (set k v m) ≡ v
  get_or-set_self k d v m = ground (arith, eq_iff k k, get_or-set k k d v m)

  -- Each value in the map has the property.
  abbrev pub Holds {κ} : (V → Type κ) → Map V → Type (ℓ ⊔ κ)
  Holds P m = (k : String) (v : V) → get k m ≡ some v → P v

  pub Holds-set {κ} :
      (P : V → Type κ) (k : String) (v : V) (m : Map V) → P v → Holds P m → Holds P (set k v m)
  Holds-set P k v m pv h j w e = ground (arith, get-set k j v m, h j w)

  pub Holds-delete {κ} :
      (P : V → Type κ) (k : String) (m : Map V) → Holds P m → Holds P (delete k m)
  Holds-delete P k m h j w e = ground (arith, get-delete k j m, h j w)
