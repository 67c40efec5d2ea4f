-- ===== src/Hooks/Examples.antt =====
-- The theorems about src/hooks/registry.ts at concrete inputs, and tests.
use open_supervisor.Hooks.Enough.{topological_sort_ends}
use open_supervisor.Hooks.Registry.{continues, normal, HookRegistration}
use open_supervisor.Hooks.Execute.{
  modify, block, intercept, process, returned, threw, PreToolHook, ChatResult, PreToolResult,
  ChatHook, Attempt,
}
use open_supervisor.Hooks.OrderLaws.{topological_sort-DepsFirst, DepsFirst}
use open_supervisor.Hooks.Order.{
  insert, sorted, sort, finish, registration, names, visit_new, out_of_fuel, contains, visit,
  visit_all, sort_hooks, topological_sort,
}
use open_supervisor.Prelude.{refl, ◌+◌, none, some, true, ◌≡◌, ◌∷◌, [], ◌≢◌, List, String, ℕ}

abbrev reg_of : String → ℕ → List String → HookRegistration ℕ
reg_of name priority deps = record {
  hook = priority;
  metadata = record {
    name = name;
    priority = priority;
    phase = normal;
    dependencies = deps;
    error_handling = continues;
  };
}

abbrev three : List (HookRegistration ℕ)
three = reg_of "a" 10 ("c" ∷ []) ∷ reg_of "b" 20 [] ∷ reg_of "c" 30 ("x" ∷ []) ∷ []

abbrev three_ordered : List (HookRegistration ℕ)
three_ordered = reg_of "c" 30 ("x" ∷ []) ∷ reg_of "a" 10 ("c" ∷ []) ∷ reg_of "b" 20 [] ∷ []

three_sorted : topological_sort three ≡ sorted three_ordered
unfolding topological_sort visit_all visit visit_new registration finish
three_sorted = refl

cycle_test : (sort_hooks (reg_of "a" 1 ("b" ∷ []) ∷ reg_of "b" 2 ("a" ∷ []) ∷ [])).1 ≡ some "a"
unfolding sort_hooks topological_sort visit_all visit visit_new registration finish sort insert
cycle_test = refl

topological_sort-DepsFirst_example :
    DepsFirst three [] three_ordered
    × ((n : String) → contains n (names three) ≡ true → contains n (names three_ordered) ≡ true)
topological_sort-DepsFirst_example = topological_sort-DepsFirst three three_ordered three_sorted

topological_sort_ends_example : topological_sort three ≢ out_of_fuel
topological_sort_ends_example = topological_sort_ends three

abbrev pre_hook : (ℕ → Attempt (PreToolResult ℕ)) → HookRegistration (PreToolHook ℕ)
pre_hook h = record { hook = h; metadata = (reg_of "h" 50 []).metadata }

abbrev doubles : List (HookRegistration (PreToolHook ℕ))
doubles = pre_hook (λ n. returned (modify (some (n + n)))) ∷ []

abbrev blocks : List (HookRegistration (PreToolHook ℕ))
blocks = pre_hook (λ n. threw "e") ∷ pre_hook (λ n. returned (block none)) ∷ []

abbrev chat_hook : (String → Attempt ChatResult) → HookRegistration ChatHook
chat_hook h = record { hook = h; metadata = (reg_of "h" 50 []).metadata }

abbrev renames : List (HookRegistration ChatHook)
renames = chat_hook (λ m. returned (process (some "x"))) ∷ []

abbrev intercepts : List (HookRegistration ChatHook)
intercepts = chat_hook (λ m. returned intercept) ∷ []
