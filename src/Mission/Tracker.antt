-- ===== src/Mission/Tracker.antt =====
-- src/core/loop/progress-tracker.ts. The clock is the argument `now`. What hashTodos and countCompleted give for
-- the todos, when a caller passes them, is an argument.
use open_supervisor.Prelude.Map.{Map}
use open_supervisor.Prelude.{
  str_eq, leb, ◌+◌, ◌-◌, ltb, true, if◌then◌else◌, some, false, none, not, Option, Bool, String, ℕ,
}
use open_supervisor.Prelude.Map

-- The snapshot of the todos, which is never empty, and how many are completed.
pub record Seen : Type 0 where
  pub snapshot : String
  pub completed : ℕ

pub data ProgressSource : Type 0 where
  no_source : ProgressSource
  by_count : ProgressSource
  by_snapshot : ProgressSource

pub record ProgressUpdateResult : Type 0 where
  pub has_progressed : Bool
  pub stagnation_count : ℕ
  pub previous_incomplete_count : Option ℕ
  pub progress_source : ProgressSource
  pub recovered_from_stagnation : Option Bool

pub record TrackerState : Type 0 where
  pub stagnation_count : ℕ
  pub last_incomplete_count : Option ℕ
  pub last_snapshot : Option String
  pub awaiting_check : Bool
  pub count_completed : Option ℕ
  pub last_accessed_at : ℕ

abbrev pub TrackerStates : Type 0
TrackerStates = Map TrackerState

abbrev pub default_stagnation_threshold : ℕ
default_stagnation_threshold = 3

abbrev pub tracker_ttl_ms : ℕ
tracker_ttl_ms = 600000

-- The round of the prune timer.
unfoldable pub prune : ℕ → TrackerStates → TrackerStates
prune now m = Map.keep (λ s. not (ltb tracker_ttl_ms (now - s.last_accessed_at))) m

abbrev pub fresh : ℕ → TrackerState
fresh now = record {
  stagnation_count = 0;
  last_incomplete_count = none;
  last_snapshot = none;
  awaiting_check = false;
  count_completed = none;
  last_accessed_at = now;
}

-- `getState`
abbrev pub accessed : ℕ → Option TrackerState → TrackerState
accessed now none = fresh now
accessed now (some s) = record s { last_accessed_at = now }

abbrev pub update : (TrackerState → TrackerState) → String → TrackerStates → TrackerStates
update f session m = elim (Map.get session m) [ none ↦ m | some s ↦ Map.set session (f s) m ]

unfoldable pub reset_progress : String → TrackerStates → TrackerStates
reset_progress session m =
    update
      (λ s. record s {
        stagnation_count = 0;
        last_incomplete_count = none;
        last_snapshot = none;
        count_completed = none;
        awaiting_check = false;
      })
      session m

unfoldable pub clear_session : String → TrackerStates → TrackerStates
clear_session session m = Map.delete session m

abbrev pub is_less : ℕ → Option ℕ → Bool
is_less n none = true
is_less n (some previous) = ltb n previous

abbrev pub has_changed : Option Seen → Option String → Bool
has_changed none last = false
has_changed (some seen) none = false
has_changed (some seen) (some last) = not (str_eq seen.snapshot last)

abbrev pub source_of : ℕ → Option Seen → TrackerState → ProgressSource
source_of incomplete todos s =
    if is_less incomplete s.last_incomplete_count
    then by_count
    else if has_changed todos s.last_snapshot
    then by_snapshot
    else no_source

-- The state with what was seen noted.
abbrev pub noted : ℕ → Option Seen → TrackerState → TrackerState
noted incomplete none s = record s { last_incomplete_count = some incomplete }
noted incomplete (some seen) s = record s {
  last_incomplete_count = some incomplete;
  last_snapshot = some seen.snapshot;
  count_completed = some seen.completed;
}

abbrev pub no_progress : TrackerState → Option ℕ → ProgressUpdateResult
no_progress s previous = record {
  has_progressed = false;
  stagnation_count = s.stagnation_count;
  previous_incomplete_count = previous;
  progress_source = no_source;
  recovered_from_stagnation = none;
}

abbrev pub stalled : TrackerState → TrackerState
stalled s = record s { stagnation_count = s.stagnation_count + 1 }

-- The later checks: whether there was progress, on the noted state.
abbrev pub judged : ProgressSource → Option ℕ → TrackerState → TrackerState × ProgressUpdateResult
judged no_source previous s =
    if s.awaiting_check
    then (stalled s, no_progress (stalled s) previous)
    else (s, no_progress s previous)
judged source previous s =
    let going = record s { stagnation_count = 0; awaiting_check = false } in
    (
      going,
      record {
        has_progressed = true;
        stagnation_count = 0;
        previous_incomplete_count = previous;
        progress_source = source;
        recovered_from_stagnation = some (leb default_stagnation_threshold s.stagnation_count);
      },
    )

abbrev pub track : ℕ → Option Seen → TrackerState → TrackerState × ProgressUpdateResult
track incomplete todos s = elim s.last_incomplete_count [
  | none ↦
      let first = record (noted incomplete todos s) { stagnation_count = 0 } in
      (first, no_progress first none)
  | some previous ↦ judged (source_of incomplete todos s) (some previous) (noted incomplete todos s)
]

unfoldable pub track_progress :
    ℕ → String → ℕ → Option Seen → TrackerStates → TrackerStates × ProgressUpdateResult
track_progress now session incomplete todos m =
    let r = track incomplete todos (accessed now (Map.get session m)) in
    (Map.set session r.0 m, r.1)

unfoldable pub mark_injection_performed : ℕ → String → TrackerStates → TrackerStates
mark_injection_performed now session m =
    Map.set session (record (accessed now (Map.get session m)) { awaiting_check = true }) m

unfoldable pub get_stagnation_count : String → TrackerStates → ℕ
get_stagnation_count session m = elim (Map.get session m) [ none ↦ 0 | some s ↦ s.stagnation_count ]

unfoldable pub is_stagnant : String → ℕ → TrackerStates → Bool
is_stagnant session threshold m = elim (Map.get session m) [
  | none ↦ false
  | some s ↦ leb threshold s.stagnation_count
]
