-- ===== src/Hooks/Registry.antt =====
-- src/hooks/registry.ts and src/hooks/types.ts: the metadata of a hook and its registration. A priority
-- is a whole number.
use open_supervisor.Pools.Strings.{is_truthy}
use open_supervisor.Prelude.{
  ltb, ◌==◌, none, if◌then◌else◌, some, [], List, String, ℕ, Bool, Option,
}

pub data Phase : Type 0 where
  early : Phase
  normal : Phase
  late : Phase

pub data ErrorHandling : Type 0 where
  continues : ErrorHandling
  stops : ErrorHandling
  retries : ErrorHandling

pub record HookMetadata : Type 0 where
  pub name : String
  pub priority : ℕ
  pub phase : Phase
  pub dependencies : List String
  pub error_handling : ErrorHandling

-- `Partial<HookMetadata>`, as a caller gives it.
pub record PartialMetadata : Type 0 where
  pub name : Option String
  pub priority : Option ℕ
  pub phase : Option Phase
  pub dependencies : Option (List String)
  pub error_handling : Option ErrorHandling

pub record HookRegistration {ℓ} (H : Type ℓ) : Type ℓ where
  pub hook : H
  pub metadata : HookMetadata

abbrev pub or {ℓ} : {A : Type ℓ} → Option A → A → A
or (some a) d = a
or none d = d

-- `metadata?.name || name`: an empty name counts as none.
abbrev pub name_or : Option String → String → String
name_or (some s) d = if is_truthy s then s else d
name_or none d = d

unfoldable pub prepare_metadata : String → Option PartialMetadata → HookMetadata
prepare_metadata name none = record {
  name = name;
  priority = 50;
  phase = normal;
  dependencies = [];
  error_handling = continues;
}
prepare_metadata name (some m) = record {
  name = name_or m.name name;
  priority = or m.priority 50;
  phase = or m.phase normal;
  dependencies = or m.dependencies [];
  error_handling = or m.error_handling continues;
}

abbrev pub phase_order : Phase → ℕ
phase_order early = 0
phase_order normal = 1
phase_order late = 2

-- Whether the comparison of `sortHooks` puts the first after the second.
abbrev pub is_after : HookMetadata → HookMetadata → Bool
is_after a b =
    if phase_order a.phase == phase_order b.phase
    then ltb b.priority a.priority
    else ltb (phase_order b.phase) (phase_order a.phase)
