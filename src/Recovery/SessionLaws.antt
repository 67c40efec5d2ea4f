-- ===== src/Recovery/SessionLaws.antt =====
-- src/core/recovery/session-recovery.ts: how often a session is recovered.
use open_supervisor.Recovery.Handler.{ErrorContext, RecoveryRecord}
use open_supervisor.Recovery.Errors.{detect_error_type, ErrorType, Failure}
use open_supervisor.Recovery.Session.{
  retry_cooldown_ms, fresh, accepted, handle_kind, prompts_thinking, prompts_tool_crash, declined,
  waits, max_attempts, handle_session_error, handle_state, RecoveryState, get_state, RecoveryStates,
  wait_over, Response,
}
use open_supervisor.Prelude.{
  ap, ◌∷◌, ltb, ◌||◌, Bool-cases, some, Option, none, [], eq_iff, not, arith, inr, ◌&&◌, str_eq,
  inl, ◌+◌, ◌-◌, Option-cases, if◌then◌else◌, ◌≡◌, false, ◌≤◌, true, List, Bool, String, ℕ,
}
use open_supervisor.Prelude.Map

-- What happens to the sessions until one is marked as recovered or cleaned up.
pub data Event : Type 0 where
  errs : ℕ → String → Failure → Event
  wait_ends : String → Event

abbrev pub is_declined : Response → Bool
is_declined declined = true
is_declined prompts_tool_crash = false
is_declined prompts_thinking = false
is_declined (waits delay) = false
is_declined accepted = false

-- How many errors of a session the events recover from.
unfoldable pub recoveries : String → List Event → RecoveryStates → List RecoveryRecord → ℕ
recoveries session [] m h = 0
recoveries session (errs now other e ∷ es) m h =
    let r = handle_session_error now other e m h in
    (if str_eq other session && not (is_declined r.1) then 1 else 0) + recoveries session es r.0 r.2
recoveries session (wait_ends other ∷ es) m h = recoveries session es (wait_over other m) h

-- A recovery counts as an error of the three that the session may have.
handled_counts :
    (now : ℕ) (session : String) (e : Failure) (s : RecoveryState) (h : List RecoveryRecord)
    → let r = handle_state now session e s h in
      (if is_declined r.response then 0 else 1) + (max_attempts - r.state.error_count)
      ≤ max_attempts - s.error_count
handled_counts now session e s h =
    elim (Bool-cases (s.is_recovering || ltb (now - s.last_error_time) retry_cooldown_ms)) [
      | inl busy ↦ rw busy (omega arith)
      | inr ready ↦ rw ready (by_kind (detect_error_type e))
    ]
  where
    ctx : ErrorContext
    ctx = record { session_id = session; agent = none; error = e; attempt = s.error_count + 1 }

    by_kind :
        (kind : Option ErrorType)
        → let r = handle_kind now ctx kind s h in
          (if is_declined r.response then 0 else 1) + (max_attempts - r.state.error_count)
          ≤ max_attempts - s.error_count
    by_kind none = omega arith
    by_kind (some kind) = ground arith

wait_over_state :
    (other session : String) (m : RecoveryStates)
    → (get_state session (wait_over other m)).error_count ≡ (get_state session m).error_count
unfolding wait_over Map.get_or
wait_over_state other session m = elim (Option-cases (Map.get other m)) [
  | inl absent ↦ ground (arith, absent)
  | inr (s, here) ↦ ground (
    arith,
    Map.get-set other session (record s { is_recovering = false }) m,
    eq_iff other session,
    here,
  )
]

-- Until a session is marked as recovered or cleaned up, at most three of its errors are recovered from,
-- less those that it has had already, whatever errors other sessions have.
pub recoveries_bounded :
    (session : String) (es : List Event) (m : RecoveryStates) (h : List RecoveryRecord)
    → recoveries session es m h ≤ max_attempts - (get_state session m).error_count
unfolding recoveries handle_session_error
recoveries_bounded session [] m h = omega arith
recoveries_bounded session (wait_ends other ∷ es) m h =
    omega
      (arith, recoveries_bounded session es (wait_over other m) h, wait_over_state other session m)
recoveries_bounded session (errs now other e ∷ es) m h =
    let r = handle_state now other e (get_state other m) h in
    let left = recoveries_bounded session es (Map.set other r.state m) r.history in
    elim (Bool-cases (str_eq other session)) [
      | inl same ↦
          let one : other ≡ session = ground (arith, eq_iff other session, same) in
          ground (
            arith,
            left,
            Map.get_or-set other session fresh r.state m,
            handled_counts now other e (get_state other m) h,
            ap (λ k. (get_state k m).error_count) one,
          )
      | inr apart ↦ ground (arith, left, Map.get_or-set other session fresh r.state m)
    ]
