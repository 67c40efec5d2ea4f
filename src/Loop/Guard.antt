-- ===== src/Loop/Guard.antt =====
-- src/core/loop/compaction-guard.ts. The clock is the argument `now`, in milliseconds.
use open_supervisor.Prelude.Map
use open_supervisor.Prelude.Map.{Map}
use open_supervisor.Prelude.{some, ◌-◌, ltb, true, none, not, filter, Option, Bool, ℕ, [], String}

pub record CompactionGuardState : Type 0 where
  pub compaction_epoch : ℕ
  pub last_accessed_at : ℕ

abbrev pub CompactionStates : Type 0
CompactionStates = Map CompactionGuardState

abbrev pub compaction_ttl_ms : ℕ
compaction_ttl_ms = 600000

-- The round of the prune timer.
unfoldable pub prune : ℕ → CompactionStates → CompactionStates
prune now m = filter (λ e. not (ltb compaction_ttl_ms (now - e.1.last_accessed_at))) m

unfoldable pub arm_compaction_guard : ℕ → String → ℕ → CompactionStates → CompactionStates × ℕ
arm_compaction_guard now session timestamp m =
    (Map.set session (record { compaction_epoch = timestamp; last_accessed_at = now }) m, timestamp)

unfoldable pub is_compaction_safe : ℕ → String → ℕ → CompactionStates → CompactionStates × Bool
is_compaction_safe now session current_epoch m = elim (Map.get session m) [
  | none ↦ (m, true)
  | some state ↦ (
    Map.set session (record state { last_accessed_at = now }) m,
    not (ltb state.compaction_epoch current_epoch),
  )
]

unfoldable pub clear_compaction_state : String → CompactionStates → CompactionStates
clear_compaction_state session m = Map.delete session m

unfoldable pub get_compaction_state : String → CompactionStates → Option CompactionGuardState
get_compaction_state session m = Map.get session m

unfoldable pub shutdown_compaction_guard : CompactionStates → CompactionStates
shutdown_compaction_guard m = []
