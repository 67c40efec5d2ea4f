-- ===== src/Recovery/Handler.antt =====
-- src/core/recovery/patterns.ts and src/core/recovery/handler.ts: the action on an error, the history of
-- actions, and withRecovery. Toasts are left out. Fuel bounds the calls of `fn` in withRecovery.
use Prim.Native.Nat.{zero}
use open_supervisor.Recovery.Errors.{
  loose, context_pattern, text_of, base_delay, rate_limit_pattern, Failure,
}
use open_supervisor.Recovery.Regex.{lits, units, Pattern, test}
use open_supervisor.Prelude.{
  text_append, leb, ◌/◌, shift, ◌-◌, filter, ◌^◌, ◌+◌, length, false, [], ◌*◌, true, ◌∷◌, some, suc,
  drop, find, ltb, none, ◌++◌, Bool, List, String, Option, if◌then◌else◌, ℕ,
}

pub data RecoveryAction : Type 0 where
  -- the delay, the next attempt and a change of the prompt
  retry : ℕ → ℕ → Option String → RecoveryAction
  skip : String → RecoveryAction
  escalate : String → String → RecoveryAction
  compact : String → RecoveryAction
  abort : String → RecoveryAction

pub record ErrorContext : Type 0 where
  pub session_id : String
  pub agent : Option String
  pub error : Failure
  pub attempt : ℕ

pub record ErrorPattern : Type 0 where
  pub pattern : Pattern
  pub category : String
  pub handler : ErrorContext → RecoveryAction

abbrev pub max_retries : ℕ
max_retries = 3

abbrev pub max_history : ℕ
max_history = 100

-- What the template writes for `ctx.agent`.
abbrev pub shown : Option String → String
shown none = "undefined"
shown (some agent) = agent

unfoldable pub recovery_patterns : List ErrorPattern
recovery_patterns =
    record {
      pattern = rate_limit_pattern;
      category = "rate_limit";
      handler = λ ctx. retry (base_delay * 2 ^ ctx.attempt) (ctx.attempt + 1) none;
    }
    ∷ record {
      pattern = context_pattern;
      category = "context_overflow";
      handler = λ ctx. compact "Context limit reached";
    }
    ∷ record {
      pattern =
          lits "ECONNREFUSED"
          ∷ lits "ETIMEDOUT"
          ∷ lits "network"
          ∷ loose ("fetch" ∷ "failed" ∷ [])
          ∷ [];
      category = "network";
      handler = λ ctx.
          if leb max_retries ctx.attempt
          then abort "Network unavailable after retries"
          else retry (base_delay * (ctx.attempt + 1)) (ctx.attempt + 1) none;
    }
    ∷ record {
      pattern = loose ("session" ∷ "not" ∷ "found" ∷ []) ∷ loose ("session" ∷ "expired" ∷ []) ∷ [];
      category = "session";
      handler = λ ctx. abort "Session no longer available";
    }
    ∷ record {
      pattern = loose ("tool" ∷ "not" ∷ "found" ∷ []) ∷ loose ("unknown" ∷ "tool" ∷ []) ∷ [];
      category = "tool";
      handler = λ ctx. escalate "Reviewer" (text_append "Unknown tool used by " (shown ctx.agent));
    }
    ∷ record {
      pattern =
          loose ("parse" ∷ "error" ∷ [])
          ∷ loose ("invalid" ∷ "json" ∷ [])
          ∷ loose ("syntax" ∷ "error" ∷ [])
          ∷ [];
      category = "parse";
      handler = λ ctx.
          if leb 2 ctx.attempt
          then skip "Persistent parse error"
          else retry 500 (ctx.attempt + 1) none;
    }
    ∷ record {
      pattern = lits "gibberish" ∷ lits "hallucination" ∷ loose ("mixed" ∷ "language" ∷ []) ∷ [];
      category = "gibberish";
      handler = λ ctx. retry 1000 1 none;
    }
    ∷ record {
      pattern =
          loose ("lsp" ∷ "diagnostics" ∷ [])
          ∷ loose ("tsc" ∷ "error" ∷ [])
          ∷ loose ("eslint" ∷ "error" ∷ [])
          ∷ [];
      category = "lsp";
      handler = λ ctx. retry 2000 (ctx.attempt + 1) (
          some
            "Note: Previous attempt had LSP issues. Ensure code quality and consider simpler implementation.");
    }
    ∷ record {
      pattern = loose ("execution" ∷ "timed" ∷ "out" ∷ []) ∷ lits "timeout" ∷ [];
      category = "timeout";
      handler = λ ctx. retry 5000 (ctx.attempt + 1) (
          some
            "Note: Previous attempt timed out. Break down the task into smaller sub-tasks if necessary.");
    }
    ∷ []

pub record RecoveryRecord : Type 0 where
  pub context : ErrorContext
  pub action : RecoveryAction

-- The first pattern that matches the text of the error.
unfoldable pub matching : Failure → Option ErrorPattern
unfolding recovery_patterns test
matching error = find (λ p. test p.pattern (units (text_of error))) recovery_patterns

abbrev pub remembered : RecoveryRecord → List RecoveryRecord → List RecoveryRecord
remembered r history =
    let longer : List RecoveryRecord = history ++ (r ∷ []) in
    if ltb max_history (length longer) then shift longer else longer

abbrev pub default_action : ErrorContext → RecoveryAction
default_action ctx =
    if ltb ctx.attempt max_retries
    then retry (base_delay * 2 ^ ctx.attempt) (ctx.attempt + 1) none
    else abort "Unknown error after 3 retries"

abbrev pub act :
    Option ErrorPattern → ErrorContext → List RecoveryRecord → RecoveryAction × List RecoveryRecord
act none ctx history = (default_action ctx, history)
act (some p) ctx history =
    (p.handler ctx, remembered (record { context = ctx; action = p.handler ctx }) history)

unfoldable pub handle_error :
    ErrorContext → List RecoveryRecord → RecoveryAction × List RecoveryRecord
handle_error ctx history = act (matching ctx.error) ctx history

-- The n-th call of a function: it gives a value or throws.
pub data Called {ℓ} (T : Type ℓ) : Type ℓ where
  gave : T → Called T
  threw : Failure → Called T

pub data Recovered {ℓ} (T : Type ℓ) : Type ℓ where
  value : T → Recovered T
  rethrown : Failure → Recovered T
  aborted : String → Recovered T
  skipped : Recovered T
  out_of_fuel : Recovered T

-- What withRecovery does on an action, with the history and the rest of its loop.
abbrev pub on_action {ℓ} :
    {T : Type ℓ}
    → ℕ
    → Failure
    → RecoveryAction
    → List RecoveryRecord
    → Recovered T × List RecoveryRecord
    → Recovered T × List RecoveryRecord
on_action limit e (retry delay attempt prompt) h rest =
    if ltb limit attempt then (rethrown e, h) else rest
on_action limit e (abort reason) h rest = (aborted reason, h)
on_action limit e (skip reason) h rest = (skipped, h)
on_action limit e (escalate to reason) h rest = (rethrown e, h)
on_action limit e (compact reason) h rest = (rethrown e, h)

-- What withRecovery does on a call, with the history and the rest of its loop.
abbrev pub after_call {ℓ} :
    {T : Type ℓ}
    → ℕ
    → (Failure → ErrorContext)
    → Called T
    → List RecoveryRecord
    → (List RecoveryRecord → Recovered T × List RecoveryRecord)
    → Recovered T × List RecoveryRecord
after_call limit context (gave t) h rest = (value t, h)
after_call limit context (threw e) h rest =
    let r = handle_error (context e) h in on_action limit e r.0 r.1 (rest r.1)

abbrev pub context_of : String → ℕ → Failure → ErrorContext
context_of session attempt e = record {
  session_id = session;
  agent = none;
  error = e;
  attempt = attempt;
}

module _ {ℓ} {T : Type ℓ} (session : String) (calls : ℕ → Called T) (limit : ℕ) where
  -- The loop after `attempt` calls.
  unfoldable pub recovery_from : ℕ → ℕ → List RecoveryRecord → Recovered T × List RecoveryRecord
  recovery_from zero attempt history = (out_of_fuel, history)
  recovery_from (suc fuel) attempt history =
      after_call limit (context_of session (attempt + 1)) (calls attempt) history
        (recovery_from fuel (attempt + 1))

  unfoldable pub with_recovery : ℕ → List RecoveryRecord → Recovered T × List RecoveryRecord
  with_recovery fuel history = recovery_from fuel 0 history

-- `slice(-limit)`.
unfoldable pub get_history : ℕ → List RecoveryRecord → List RecoveryRecord
get_history limit history = drop (length history - limit) history

abbrev pub is_success : RecoveryAction → Bool
is_success (retry delay attempt prompt) = true
is_success (skip reason) = true
is_success (escalate to reason) = false
is_success (compact reason) = false
is_success (abort reason) = false

-- `successRate` of `getStats`, in percent: `Math.round` of the quotient.
unfoldable pub success_rate : List RecoveryRecord → ℕ
success_rate [] = 100
success_rate (r ∷ rs) =
    (200 * length (filter (λ x. is_success x.action) (r ∷ rs)) + length (r ∷ rs))
    / (2 * length (r ∷ rs))
