-- ===== src/Hooks/Order.antt =====
-- src/hooks/registry.ts: `sortHooks` and `topologicalSort`. Fuel bounds the depth of `visit`. The array
-- sort is stable, so it is the insertion of each registration after those that it does not precede.
use Prim.Native.Nat.{zero}
use open_supervisor.Hooks.Registry.{prepare_metadata, is_after, PartialMetadata, HookRegistration}
use open_supervisor.Prelude.{
  str_eq, none, if◌then◌else◌, not, length, some, any, Bool, ◌++◌, Option, suc, filter, ◌∷◌, String,
  ℕ, [], List,
}

pub data Outcome {ℓ} (A : Type ℓ) : Type ℓ where
  sorted : A → Outcome A
  cycle : String → Outcome A
  out_of_fuel : Outcome A

pub record Visits {ℓ} (H : Type ℓ) : Type ℓ where
  pub order : List (HookRegistration H)
  pub visited : List String
  pub visiting : List String

abbrev pub contains : String → List String → Bool
contains name names = any (λ n. str_eq n name) names

abbrev pub without : String → List String → List String
without name names = filter (λ n. not (str_eq n name)) names

abbrev pub then_visit {ℓ κ} : {A : Type ℓ} {B : Type κ} → Outcome A → (A → Outcome B) → Outcome B
then_visit (sorted a) f = f a
then_visit (cycle name) f = cycle name
then_visit out_of_fuel f = out_of_fuel

module _ {ℓ} {H : Type ℓ} where
  -- `nameToReg`: the last registration of a name.
  unfoldable pub registration : String → List (HookRegistration H) → Option (HookRegistration H)
  registration name [] = none
  registration name (reg ∷ regs) = elim (registration name regs) [
    | some found ↦ some found
    | none ↦ if str_eq reg.metadata.name name then some reg else none
  ]

  -- The loop over names, for the `visit` that it calls.
  unfoldable pub visit_all :
      (String → Visits H → Outcome (Visits H)) → List String → Visits H → Outcome (Visits H)
  visit_all visit [] s = sorted s
  visit_all visit (name ∷ names) s = then_visit (visit name s) (visit_all visit names)

  -- What `visit` does after the loop over the dependencies.
  unfoldable pub finish : String → HookRegistration H → Visits H → Visits H
  finish name reg s = record {
    order = s.order ++ (reg ∷ []);
    visited = name ∷ s.visited;
    visiting = without name s.visiting;
  }

  -- `visit` of a name that is neither visited nor being visited.
  unfoldable pub visit_new :
      (String → Visits H → Outcome (Visits H))
      → String
      → Option (HookRegistration H)
      → Visits H
      → Outcome (Visits H)
  visit_new visit name none s =
      sorted (record s { visited = name ∷ s.visited; visiting = without name (name ∷ s.visiting) })
  visit_new visit name (some reg) s =
      then_visit
        (visit_all visit reg.metadata.dependencies (record s { visiting = name ∷ s.visiting }))
        (λ t. sorted (finish name reg t))

  unfoldable pub visit : ℕ → List (HookRegistration H) → String → Visits H → Outcome (Visits H)
  visit zero regs name s = out_of_fuel
  visit (suc fuel) regs name s =
      if contains name s.visiting
      then cycle name
      else if contains name s.visited
      then sorted s
      else visit_new (visit fuel regs) name (registration name regs) s

  abbrev pub names : List (HookRegistration H) → List String
  names [] = []
  names (reg ∷ regs) = reg.metadata.name ∷ names regs

  abbrev pub nothing : Visits H
  nothing = record { order = []; visited = []; visiting = [] }

  unfoldable pub topological_sort : List (HookRegistration H) → Outcome (List (HookRegistration H))
  topological_sort regs =
      then_visit (visit_all (visit (suc (length regs)) regs) (names regs) nothing)
        (λ s. sorted s.order)

  -- `registrations.sort`.
  unfoldable pub insert : HookRegistration H → List (HookRegistration H) → List (HookRegistration H)
  insert r [] = r ∷ []
  insert r (x ∷ xs) =
      let rest = insert r xs in if is_after x.metadata r.metadata then r ∷ x ∷ xs else x ∷ rest

  unfoldable pub sort :
      List (HookRegistration H) → List (HookRegistration H) → List (HookRegistration H)
  sort done [] = done
  sort done (r ∷ rs) = sort (insert r done) rs

  -- The registrations after `sortHooks`, and the name in a cycle if it throws.
  unfoldable pub sort_hooks : List (HookRegistration H) → List (HookRegistration H) × Option String
  sort_hooks regs = elim (topological_sort (sort [] regs)) [
    | sorted order ↦ (order, none)
    | cycle name ↦ (sort [] regs, some name)
    | out_of_fuel ↦ (sort [] regs, none)
  ]

  -- `registerPreTool`, `registerPostTool`, `registerChat` and `registerDone`, each on its own list.
  unfoldable pub register :
      List (HookRegistration H)
      → H
      → String
      → Option PartialMetadata
      → List (HookRegistration H) × Option String
  register regs hook name metadata =
      sort_hooks (regs ++ (record { hook = hook; metadata = prepare_metadata name metadata } ∷ []))
