-- ===== src/Recovery/Session.antt =====
-- src/core/recovery/session-recovery.ts: the recovery of a session from an error. The clock is the argument
-- `now`, in milliseconds since 1970; toasts and the text of the prompts are left out. On a rate limit the
-- handler waits between two steps, so it is `handle_session_error` and then `wait_over`.
use open_supervisor.Recovery.Errors.{
  auth_error, network_error, message_aborted, context_overflow, rate_limit, detect_error_type,
  thinking_disabled, thinking_block_order, tool_result_missing, Failure, ErrorType,
}
use open_supervisor.Recovery.Handler.{
  abort, compact, escalate, skip, handle_error, RecoveryRecord, retry, RecoveryAction, ErrorContext,
}
use open_supervisor.Prelude.Map.{Map}
use open_supervisor.Prelude.{
  ◌-◌, ltb, ◌||◌, if◌then◌else◌, some, ◌+◌, none, Option, true, List, Bool, false, String, ℕ,
}
use open_supervisor.Prelude.Map

pub record RecoveryState : Type 0 where
  pub is_recovering : Bool
  pub last_error_time : ℕ
  pub error_count : ℕ

abbrev pub RecoveryStates : Type 0
RecoveryStates = Map RecoveryState

abbrev pub max_attempts : ℕ
max_attempts = 3

abbrev pub retry_cooldown_ms : ℕ
retry_cooldown_ms = 30000

abbrev pub fresh : RecoveryState
fresh = record { is_recovering = false; last_error_time = 0; error_count = 0 }

-- `getState`
abbrev pub get_state : String → RecoveryStates → RecoveryState
get_state session m = Map.get_or session fresh m

-- What the handler does.
pub data Response : Type 0 where
  -- it returns false
  declined : Response
  -- it sends the prompt for a tool crash, or for thinking blocks, and returns true
  prompts_tool_crash : Response
  prompts_thinking : Response
  -- it waits, and then returns true
  waits : ℕ → Response
  accepted : Response

abbrev pub delay_of : RecoveryAction → Response
delay_of (retry delay attempt prompt) = waits delay
delay_of (skip reason) = accepted
delay_of (escalate to reason) = accepted
delay_of (compact reason) = accepted
delay_of (abort reason) = accepted

-- The switch on the kind of error. While it waits for a rate limit the session counts as recovering.
abbrev pub respond : ErrorType → ErrorContext → List RecoveryRecord → Response × List RecoveryRecord
respond tool_result_missing ctx h = (prompts_tool_crash, h)
respond thinking_block_order ctx h = (prompts_thinking, h)
respond thinking_disabled ctx h = (prompts_thinking, h)
respond rate_limit ctx h = let r = handle_error ctx h in (delay_of r.0, r.1)
respond context_overflow ctx h = (declined, h)
respond message_aborted ctx h = (declined, h)
respond network_error ctx h = (declined, h)
respond auth_error ctx h = (declined, h)

abbrev pub is_waiting : Response → Bool
is_waiting (waits delay) = true
is_waiting declined = false
is_waiting prompts_tool_crash = false
is_waiting prompts_thinking = false
is_waiting accepted = false

pub record Handled : Type 0 where
  pub state : RecoveryState
  pub response : Response
  pub history : List RecoveryRecord

-- The handler on the state of the session, for the kind that was detected.
abbrev pub handle_kind :
    ℕ → ErrorContext → Option ErrorType → RecoveryState → List RecoveryRecord → Handled
handle_kind now ctx none s h = record {
  state = record s { last_error_time = now; error_count = s.error_count + 1 };
  response = declined;
  history = h;
}
handle_kind now ctx (some kind) s h =
    let counted = record s { last_error_time = now; error_count = s.error_count + 1 } in
    if ltb max_attempts counted.error_count
    then record { state = counted; response = declined; history = h }
    else let r = respond kind ctx h in
      record {
        state = record counted { is_recovering = is_waiting r.0 };
        response = r.0;
        history = r.1;
      }

abbrev pub handle_state : ℕ → String → Failure → RecoveryState → List RecoveryRecord → Handled
handle_state now session e s h =
    let ctx : ErrorContext = record {
      session_id = session;
      agent = none;
      error = e;
      attempt = s.error_count + 1;
    } in
    if s.is_recovering || ltb (now - s.last_error_time) retry_cooldown_ms
    then record { state = s; response = declined; history = h }
    else handle_kind now ctx (detect_error_type e) s h

unfoldable pub handle_session_error :
    ℕ
    → String
    → Failure
    → RecoveryStates
    → List RecoveryRecord
    → RecoveryStates × Response × List RecoveryRecord
handle_session_error now session e m h =
    let r = handle_state now session e (get_state session m) h in
    (Map.set session r.state m, r.response, r.history)

-- A change of the state of a session, if there is one.
abbrev pub update : (RecoveryState → RecoveryState) → String → RecoveryStates → RecoveryStates
update f session m = elim (Map.get session m) [ none ↦ m | some s ↦ Map.set session (f s) m ]

-- The wait for a rate limit is over, for a session that was not cleaned up in between.
unfoldable pub wait_over : String → RecoveryStates → RecoveryStates
wait_over session m = update (λ s. record s { is_recovering = false }) session m

unfoldable pub mark_recovery_complete : String → RecoveryStates → RecoveryStates
mark_recovery_complete session m =
    update (λ s. record s { is_recovering = false; error_count = 0 }) session m

unfoldable pub cleanup_session_recovery : String → RecoveryStates → RecoveryStates
cleanup_session_recovery session m = Map.delete session m

unfoldable pub is_session_recovering : String → RecoveryStates → Bool
is_session_recovering session m = elim (Map.get session m) [
  | none ↦ false
  | some s ↦ s.is_recovering
]
