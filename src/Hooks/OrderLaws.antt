-- ===== src/Hooks/OrderLaws.antt =====
-- src/hooks/registry.ts: in the order that `topologicalSort` gives, every hook follows those it depends on.
use Prim.Native.Nat.{zero}
use open_supervisor.Hooks.Registry.{HookRegistration}
use open_supervisor.Hooks.Order.{
  nothing, topological_sort, without, out_of_fuel, visit_new, cycle, then_visit, visit, finish,
  sorted, Outcome, names, visit_all, Visits, contains, registration,
}
use open_supervisor.Prelude.{
  length, str_eq, eq_refl, Bool-cases, Option, suc, ℕ, ap, ◌∙◌, eq_iff, false, arith, inr, inl,
  none, Option-cases, refl, [], some, true, ◌∷◌, ◌≡◌, ◌++◌, List, String,
}

then_visit_sorted {ℓ κ} :
    {A : Type ℓ}
    → {B : Type κ} → (o : Outcome A) → (f : A → Outcome B) → (b : B) → then_visit o f ≡ sorted b
    → (a : A) × (o ≡ sorted a) × (f a ≡ sorted b)
then_visit_sorted (sorted a) f b e = (a, refl, e)
then_visit_sorted (cycle name) f b e = cc
then_visit_sorted out_of_fuel f b e = cc

module _ {ℓ} {H : Type ℓ} where
  -- Each dependency that is registered is the name of an earlier hook of the list, or of `seen`.
  abbrev pub DepsFirst :
      List (HookRegistration H) → List String → List (HookRegistration H) → Type 0
  DepsFirst regs seen [] = Unit
  DepsFirst regs seen (r ∷ rs) =
      ((d : String)
        → contains d r.metadata.dependencies ≡ true
        → contains d (names regs) ≡ true
        → contains d seen ≡ true)
      × DepsFirst regs (r.metadata.name ∷ seen) rs

  -- Every name seen, or of a hook in the list.
  abbrev together : List String → List (HookRegistration H) → List String
  together seen [] = seen
  together seen (r ∷ rs) = together (r.metadata.name ∷ seen) rs

  together_seen :
      (n : String) (seen : List String) (rs : List (HookRegistration H))
      → contains n seen ≡ true
      → contains n (together seen rs) ≡ true
  together_seen n seen [] h = h
  together_seen n seen (r ∷ rs) h = together_seen n (r.metadata.name ∷ seen) rs (ground (arith, h))

  together-push :
      (seen : List String) (r : HookRegistration H) (rs : List (HookRegistration H))
      → together seen (rs ++ (r ∷ [])) ≡ r.metadata.name ∷ together seen rs
  together-push seen r [] = refl
  together-push seen r (x ∷ rs) = together-push (x.metadata.name ∷ seen) r rs

  push-DepsFirst :
      (regs : List (HookRegistration H)) (seen : List String) (r : HookRegistration H)
      (rs : List (HookRegistration H))
      → DepsFirst regs seen rs
      → ((d : String)
          → contains d r.metadata.dependencies ≡ true
          → contains d (names regs) ≡ true
          → contains d (together seen rs) ≡ true)
      → DepsFirst regs seen (rs ++ (r ∷ []))
  push-DepsFirst regs seen r [] h deps = (deps, tt)
  push-DepsFirst regs seen r (x ∷ rs) h deps =
      (h.0, push-DepsFirst regs (x.metadata.name ∷ seen) r rs h.1 deps)

  registration_name :
      (name : String) (regs : List (HookRegistration H)) (reg : HookRegistration H)
      → registration name regs ≡ some reg
      → reg.metadata.name ≡ name
  unfolding registration
  registration_name name [] reg e = cc
  registration_name name (r ∷ regs) reg e = elim (Option-cases (registration name regs)) [
    | inl absent ↦ ground (arith, rw absent at e, eq_iff r.metadata.name name)
    | inr (found, here) ↦
        let same : found ≡ reg = ground (arith, rw here at e) in
        registration_name name regs reg (here ∙ ap some same)
  ]

  registration-none :
      (name : String) (regs : List (HookRegistration H))
      → registration name regs ≡ none
      → contains name (names regs) ≡ false
  unfolding registration
  registration-none name [] e = refl
  registration-none name (r ∷ regs) e = elim (Option-cases (registration name regs)) [
    | inl absent ↦ ground (arith, rw absent at e, registration-none name regs absent)
    | inr (found, here) ↦ ground (arith, rw here at e)
  ]

  -- What holds between two visits: the order so far is good, and the visited hooks are in it.
  pub record IsGood (regs : List (HookRegistration H)) (s : Visits H) : Type ℓ where
    pub first : DepsFirst regs [] s.order
    pub placed :
        (n : String)
        → contains n s.visited ≡ true
        → contains n (names regs) ≡ true
        → contains n (together [] s.order) ≡ true

  -- What a visit of a name that succeeds leaves.
  abbrev Leaves : List (HookRegistration H) → String → Visits H → Visits H → Type ℓ
  Leaves regs name s t =
      IsGood regs t
      × (contains name t.visited ≡ true)
      × ((n : String) → contains n s.visited ≡ true → contains n t.visited ≡ true)

  abbrev LeavesAll : List (HookRegistration H) → List String → Visits H → Visits H → Type ℓ
  LeavesAll regs ns s t =
      IsGood regs t
      × ((n : String) → contains n ns ≡ true → contains n t.visited ≡ true)
      × ((n : String) → contains n s.visited ≡ true → contains n t.visited ≡ true)

  visit_all-LeavesAll :
      (regs : List (HookRegistration H)) (v : String → Visits H → Outcome (Visits H))
      (good : (name : String) (s t : Visits H)
        → IsGood regs s
        → v name s ≡ sorted t
        → Leaves regs name s t)
      (ns : List String) (s t : Visits H)
      → IsGood regs s
      → visit_all v ns s ≡ sorted t
      → LeavesAll regs ns s t
  unfolding visit_all
  visit_all-LeavesAll regs v good [] s t g e =
      let same : s ≡ t = ground (arith, e) in rw (← same) (g, λ n h. ground arith, λ n h. h)
  visit_all-LeavesAll regs v good (name ∷ ns) s t g e =
      let (u, here, next) = then_visit_sorted (v name s) (visit_all v ns) t e in
      let (gu, one, kept) = good name s u g here in
      let (gt, all, more) = visit_all-LeavesAll regs v good ns u t gu next in
      (gt, λ n h. ground (arith, h, all n, more n, one, eq_iff name n), λ n h. more n (kept n h))

  finish-IsGood :
      (regs : List (HookRegistration H)) (name : String) (reg : HookRegistration H) (t : Visits H)
      → reg.metadata.name ≡ name
      → IsGood regs t
      → ((n : String) → contains n reg.metadata.dependencies ≡ true → contains n t.visited ≡ true)
      → IsGood regs (finish name reg t)
  unfolding finish
  finish-IsGood regs name reg t e g deps = record {
    first = push-DepsFirst regs [] reg t.order g.first (λ d h k. g.placed d (deps d h) k);
    placed = λ n h k. rw (together-push [] reg t.order) (ground (arith, h, g.placed n, k, e));
  }

  visit_new-Leaves :
      (regs : List (HookRegistration H)) (v : String → Visits H → Outcome (Visits H))
      (good : (name : String) (s t : Visits H)
        → IsGood regs s
        → v name s ≡ sorted t
        → Leaves regs name s t)
      (name : String) (found : Option (HookRegistration H)) (s t : Visits H)
      → IsGood regs s
      → registration name regs ≡ found
      → visit_new v name found s ≡ sorted t
      → Leaves regs name s t
  unfolding visit_new finish
  visit_new-Leaves regs v good name none s t g absent e =
      let same : record s {
        visited = name ∷ s.visited;
        visiting = without name (name ∷ s.visiting);
      }
          ≡ t =
        ground (arith, e) in
      rw (← same) (
        record {
          first = g.first;
          placed = λ n h k.
              ground (arith, h, k, g.placed n, registration-none name regs absent, eq_iff name n);
        },
        ground (arith, eq_refl name),
        λ n h. ground (arith, h),
      )
  visit_new-Leaves regs v good name (some reg) s t g here e =
      let (u, through, last) = then_visit_sorted _ _ t e in
      let (gu, all, kept) =
        visit_all-LeavesAll regs v good reg.metadata.dependencies
          (record s { visiting = name ∷ s.visiting }) u
          (record { first = g.first; placed = g.placed }) through in
      let same : finish name reg u ≡ t = ground (arith, last) in
      rw (← same) (
        finish-IsGood regs name reg u (registration_name name regs reg here) gu all,
        ground (arith, eq_refl name),
        λ n h. ground (arith, kept n h),
      )

  visit-Leaves :
      (fuel : ℕ) (regs : List (HookRegistration H)) (name : String) (s t : Visits H)
      → IsGood regs s
      → visit fuel regs name s ≡ sorted t
      → Leaves regs name s t
  unfolding visit
  visit-Leaves zero regs name s t g e = cc
  visit-Leaves (suc fuel) regs name s t g e = elim (Bool-cases (contains name s.visiting)) [
    | inl loop ↦ cc (rw loop at e)
    | inr free ↦ elim (Bool-cases (contains name s.visited)) [
      | inl old ↦
          let same : s ≡ t = ground (arith, rw (free, old) at e) in rw (← same) (g, old, λ n h. h)
      | inr new ↦
          visit_new-Leaves regs (visit fuel regs) (visit-Leaves fuel regs) name
            (registration name regs) s t g refl (rw (free, new) at e)
    ]
  ]

  together-names :
      (n : String) (seen : List String) (rs : List (HookRegistration H))
      → contains n seen ≡ false
      → contains n (together seen rs) ≡ true
      → contains n (names rs) ≡ true
  together-names n seen [] h k = cc
  together-names n seen (r ∷ rs) h k = elim (Bool-cases (str_eq r.metadata.name n)) [
    | inl same ↦ rw same refl
    | inr other ↦ rw other (together-names n (r.metadata.name ∷ seen) rs (rw (other, h) refl) k)
  ]

  -- In the order that `topologicalSort` gives, every hook stands after each registered hook that it
  -- depends on, and every registered name has a hook in it.
  pub topological_sort-DepsFirst :
      (regs order : List (HookRegistration H))
      → topological_sort regs ≡ sorted order
      → DepsFirst regs [] order
        × ((n : String) → contains n (names regs) ≡ true → contains n (names order) ≡ true)
  unfolding topological_sort
  topological_sort-DepsFirst regs order e =
      let (t, through, last) =
        then_visit_sorted (visit_all (visit (suc (length regs)) regs) (names regs) nothing) _ order
          e in
      let (g, all, kept) =
        visit_all-LeavesAll regs (visit (suc (length regs)) regs)
          (visit-Leaves (suc (length regs)) regs) (names regs) nothing t start through in
      let same : t.order ≡ order = ground (arith, last) in
      rw (← same) (g.first, λ n h. together-names n [] t.order refl (g.placed n (all n h) h))
    where
      start : IsGood regs nothing
      start = record { first = tt; placed = λ n h. cc }
