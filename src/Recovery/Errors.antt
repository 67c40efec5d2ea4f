-- ===== src/Recovery/Errors.antt =====
-- src/shared/errors: detectErrorType with its patterns, and what is retried or aborts.
use open_supervisor.Pools.Strings.{is_truthy}
use open_supervisor.Recovery.Regex.{any_many, maybe_any, parted, units, Atom, lits, Pattern, test}
use open_supervisor.Prelude.{
  true, [], false, some, min, ◌∷◌, Bool, none, if◌then◌else◌, ◌*◌, Option, String, List, ℕ,
}

pub data ErrorType : Type 0 where
  tool_result_missing : ErrorType
  thinking_block_order : ErrorType
  thinking_disabled : ErrorType
  rate_limit : ErrorType
  context_overflow : ErrorType
  message_aborted : ErrorType
  network_error : ErrorType
  auth_error : ErrorType

-- An `Error`: its message and its name.
pub record Failure : Type 0 where
  pub message : String
  pub name : String

-- `error.message || error.name`; the text of the error itself is that of its name.
abbrev pub text_of : Failure → String
text_of e = if is_truthy e.message then e.message else e.name

-- The expression for `rate.?limit` and the like.
abbrev pub loose : List String → List Atom
loose ts = parted maybe_any ts

abbrev pub rate_limit_pattern : Pattern
rate_limit_pattern =
    loose ("rate" ∷ "limit" ∷ []) ∷ loose ("too" ∷ "many" ∷ "requests" ∷ []) ∷ lits "429" ∷ []

abbrev pub context_pattern : Pattern
context_pattern =
    loose ("context" ∷ "length" ∷ [])
    ∷ loose ("token" ∷ "limit" ∷ [])
    ∷ loose ("maximum" ∷ "context" ∷ [])
    ∷ []

unfoldable pub error_patterns : List (ErrorType × Pattern)
error_patterns =
    (
      tool_result_missing,
      lits "tool_result_missing" ∷ parted any_many ("tool result" ∷ "missing" ∷ []) ∷ [],
    )
    ∷ (
      thinking_block_order,
      parted any_many ("thinking" ∷ "block" ∷ "order" ∷ []) ∷ lits "thinking_block_order" ∷ [],
    )
    ∷ (
      thinking_disabled,
      parted any_many ("thinking" ∷ "disabled" ∷ []) ∷ lits "thinking_disabled_violation" ∷ [],
    )
    ∷ (rate_limit, rate_limit_pattern)
    ∷ (context_overflow, context_pattern)
    ∷ (message_aborted, lits "MessageAbortedError" ∷ lits "AbortError" ∷ [])
    ∷ (
      network_error,
      lits "network" ∷ lits "ECONNREFUSED" ∷ lits "ETIMEDOUT" ∷ lits "fetch failed" ∷ [],
    )
    ∷ (
      auth_error,
      lits "unauthorized"
          ∷ lits "401"
          ∷ lits "403"
          ∷ parted any_many ("invalid" ∷ "token" ∷ [])
          ∷ [],
    )
    ∷ []

abbrev pub detect_in : List (ErrorType × Pattern) → List ℕ → Option ErrorType
detect_in [] s = none
detect_in ((kind, pattern) ∷ rest) s = if test pattern s then some kind else detect_in rest s

unfoldable pub detect_error_type : Failure → Option ErrorType
unfolding error_patterns test
detect_error_type e = detect_in error_patterns (units (text_of e))

abbrev pub base_delay : ℕ
base_delay = 1000

abbrev pub max_retry_multiplier : ℕ
max_retry_multiplier = 5

abbrev pub is_retryable_error : Option ErrorType → Bool
is_retryable_error none = false
is_retryable_error (some kind) = elim kind [
  | tool_result_missing ↦ true
  | thinking_block_order ↦ true
  | thinking_disabled ↦ true
  | rate_limit ↦ true
  | network_error ↦ true
  | _ ↦ false
]

abbrev pub should_abort_on_error : Option ErrorType → Bool
should_abort_on_error none = false
should_abort_on_error (some kind) = elim kind [
  | message_aborted ↦ true
  | auth_error ↦ true
  | _ ↦ false
]

unfoldable pub get_retry_delay : Option ErrorType → ℕ → ℕ
get_retry_delay kind attempt =
    let delay = base_delay * min attempt max_retry_multiplier in
    elim kind [ some rate_limit ↦ delay * 5 | some network_error ↦ delay * 2 | _ ↦ delay ]
