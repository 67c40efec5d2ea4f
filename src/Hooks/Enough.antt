-- ===== src/Hooks/Enough.antt =====
-- src/hooks/registry.ts: `topologicalSort` ends. Each nested visit has one registered name more in
-- `visiting`, so the depth is at most the number of registrations and one.
use Prim.Native.Nat.{zero}
use open_supervisor.Hooks.Registry.{HookRegistration}
use open_supervisor.Hooks.Order.{
  nothing, names, without, cycle, then_visit, out_of_fuel, sorted, Visits, Outcome, contains,
  finish, topological_sort, registration, visit, visit_new, visit_all,
}
use open_supervisor.Prelude.{
  none, eq_iff, inr, inl, ap, refl, eq_refl, Option-cases, Bool-cases, some, arith, suc, ◌+◌, ◌≤◌,
  length, ◌<◌, if◌then◌else◌, false, ◌≡◌, [], Option, ◌≢◌, ◌∷◌, ℕ, List, String,
}

without_same : (name : String) (vs : List String) → contains name vs ≡ false → without name vs ≡ vs
without_same name [] h = refl
without_same name (v ∷ vs) h = ground (arith, h, without_same name vs)

-- How many registrations have a name that is not among the given ones.
module _ {ℓ} {H : Type ℓ} where
  abbrev left : List String → List (HookRegistration H) → ℕ
  left vs [] = 0
  left vs (r ∷ rs) = (if contains r.metadata.name vs then 0 else 1) + left vs rs

  left-le :
      (name : String) (vs : List String) (regs : List (HookRegistration H))
      → left (name ∷ vs) regs ≤ left vs regs
  left-le name vs [] = omega arith
  left-le name vs (r ∷ rs) = ground (arith, left-le name vs rs)

  left-lt :
      (name : String) (vs : List String) (regs : List (HookRegistration H))
      (reg : HookRegistration H)
      → contains name vs ≡ false
      → registration name regs ≡ some reg
      → left (name ∷ vs) regs < left vs regs
  unfolding registration
  left-lt name vs [] reg h e = cc
  left-lt name vs (r ∷ rs) reg h e = elim (Option-cases (registration name rs)) [
    | inr (found, here) ↦ ground (arith, left-lt name vs rs found h here)
    | inl absent ↦ ground (
      arith,
      left-le name vs rs,
      rw absent at e,
      eq_iff r.metadata.name name,
      eq_iff name name,
      h,
    )
  ]

  left-all : (regs : List (HookRegistration H)) → left [] regs ≡ length regs
  left-all [] = refl
  left-all (r ∷ rs) = omega (arith, left-all rs)

  -- It ends, with the given names being visited if it succeeds.
  abbrev Ends : List String → Outcome (Visits H) → Type 0
  Ends vs (sorted t) = t.visiting ≡ vs
  Ends vs (cycle name) = Unit
  Ends vs out_of_fuel = ⊥

  then-Ends :
      (vs us : List String) (o : Outcome (Visits H)) (f : Visits H → Outcome (Visits H))
      → Ends vs o
      → ((t : Visits H) → t.visiting ≡ vs → Ends us (f t))
      → Ends us (then_visit o f)
  then-Ends vs us (sorted t) f h k = k t h
  then-Ends vs us (cycle name) f h k = tt
  then-Ends vs us out_of_fuel f h k = absurd h

  visit_all-Ends :
      (vs : List String) (v : String → Visits H → Outcome (Visits H))
      → ((name : String) (s : Visits H) → s.visiting ≡ vs → Ends vs (v name s))
      → (ns : List String) (s : Visits H) → s.visiting ≡ vs
      → Ends vs (visit_all v ns s)
  unfolding visit_all
  visit_all-Ends vs v good [] s e = e
  visit_all-Ends vs v good (n ∷ ns) s e =
      then-Ends vs vs (v n s) (visit_all v ns) (good n s e) (visit_all-Ends vs v good ns)

  visit_new-Ends :
      (regs : List (HookRegistration H)) (vs : List String)
      (v : String → Visits H → Outcome (Visits H)) (name : String)
      (found : Option (HookRegistration H)) (s : Visits H)
      → s.visiting ≡ vs
      → contains name vs ≡ false
      → ((reg : HookRegistration H)
          → found ≡ some reg
          → (n : String) (t : Visits H) → t.visiting ≡ name ∷ vs
          → Ends (name ∷ vs) (v n t))
      → Ends vs (visit_new v name found s)
  unfolding visit_new finish
  visit_new-Ends regs vs v name none s e new good = rw (e, eq_refl name) (without_same name vs new)
  visit_new-Ends regs vs v name (some reg) s e new good =
      then-Ends (name ∷ vs) vs _ _
        (visit_all-Ends (name ∷ vs) v (good reg refl) reg.metadata.dependencies
          (record s { visiting = name ∷ s.visiting }) (ap (◌∷◌ name) e))
        (λ t k. rw (k, eq_refl name) (without_same name vs new))

  visit-Ends :
      (fuel : ℕ) (regs : List (HookRegistration H)) (vs : List String) (name : String)
      (s : Visits H)
      → s.visiting ≡ vs
      → left vs regs < fuel
      → Ends vs (visit fuel regs name s)
  unfolding visit
  visit-Ends zero regs vs name s e lt = omega arith
  visit-Ends (suc fuel) regs vs name s e lt = elim (Bool-cases (contains name s.visiting)) [
    | inl loop ↦ rw loop tt
    | inr free ↦ elim (Bool-cases (contains name s.visited)) [
      | inl old ↦ rw (free, old) e
      | inr new ↦
          rw (free, new)
            (visit_new-Ends regs vs (visit fuel regs) name (registration name regs) s e
              (rw e at free)
              (λ reg here n t k.
                visit-Ends fuel regs (name ∷ vs) n t k
                  (omega (arith, left-lt name vs regs reg (rw e at free) here, lt))))
    ]
  ]

  -- `topologicalSort` never runs out of the fuel it is given: it gives an order, or it throws for a
  -- circular dependency.
  pub topological_sort_ends :
      (regs : List (HookRegistration H)) → topological_sort regs ≢ out_of_fuel
  unfolding topological_sort
  topological_sort_ends regs e =
      go (visit_all (visit (suc (length regs)) regs) (names regs) nothing)
        (visit_all-Ends [] (visit (suc (length regs)) regs)
          (λ n s k. visit-Ends (suc (length regs)) regs [] n s k (omega (arith, left-all regs)))
          (names regs) nothing refl)
        e
    where
      go :
          (o : Outcome (Visits H))
          → Ends [] o
          → then_visit o (λ s. sorted s.order) ≡ out_of_fuel
          → ⊥
      go (sorted t) h e = cc
      go (cycle name) h e = cc
      go out_of_fuel h e = h
