-- ===== src/Hooks/Execute.antt =====
-- src/hooks/registry.ts: the execution of the registered hooks. A hook is the function that `execute` is
-- for one context, of what it is run on; it returns a result or throws.
use open_supervisor.Hooks.Registry.{
  continues, stops, name_or, HookRegistration, retries, ErrorHandling,
}
use open_supervisor.Prelude.{
  [], false, if◌then◌else◌, some, none, true, ◌∷◌, Bool, String, Option, List,
}

pub data Attempt {ℓ} (R : Type ℓ) : Type ℓ where
  returned : R → Attempt R
  threw : String → Attempt R

-- Whether what a hook throws is thrown on.
abbrev pub is_stop : ErrorHandling → Bool
is_stop stops = true
is_stop continues = false
is_stop retries = false

pub data PreToolResult {ℓ} (A : Type ℓ) : Type ℓ where
  allow : PreToolResult A
  modify : Option A → PreToolResult A
  block : Option String → PreToolResult A

abbrev pub PreToolHook {ℓ} : Type ℓ → Type ℓ
PreToolHook A = A → Attempt (PreToolResult A)

-- What the hooks decide on a call: with which arguments it goes on, or why it is blocked.
pub data Decision {ℓ} (A : Type ℓ) : Type ℓ where
  allowed : A → Decision A
  blocked : Option String → Decision A
  failed : String → Decision A

-- A round of the loop from the attempt of the hook on, for the rest of the loop.
abbrev pub pre_tool_round {ℓ} :
    {A : Type ℓ} → (A → Decision A) → A → ErrorHandling → Attempt (PreToolResult A) → Decision A
pre_tool_round rest args h (returned allow) = rest args
pre_tool_round rest args h (returned (modify (some new_args))) = rest new_args
pre_tool_round rest args h (returned (modify none)) = rest args
pre_tool_round rest args h (returned (block reason)) = blocked reason
pre_tool_round rest args h (threw e) = if is_stop h then failed e else rest args

unfoldable pub execute_pre_tool {ℓ} :
    {A : Type ℓ} → List (HookRegistration (PreToolHook A)) → A → Decision A
execute_pre_tool [] args = allowed args
execute_pre_tool (reg ∷ regs) args =
    pre_tool_round (execute_pre_tool regs) args reg.metadata.error_handling (reg.hook args)

-- The output that a tool has after its hooks, and what they throw.
abbrev pub PostToolHook : Type 0
PostToolHook = String → Attempt (Option String)

unfoldable pub execute_post_tool :
    List (HookRegistration PostToolHook) → String → String × Option String
execute_post_tool [] output = (output, none)
execute_post_tool (reg ∷ regs) output = elim (reg.hook output) [
  | returned result ↦ execute_post_tool regs (name_or result output)
  | threw e ↦
      if is_stop reg.metadata.error_handling
      then (output, some e)
      else execute_post_tool regs output
]

pub data ChatResult : Type 0 where
  process : Option String → ChatResult
  intercept : ChatResult

abbrev pub ChatHook : Type 0
ChatHook = String → Attempt ChatResult

pub data ChatDecision : Type 0 where
  processed : String → ChatDecision
  intercepted : ChatDecision
  chat_failed : String → ChatDecision

abbrev pub chat_round :
    (String → ChatDecision) → String → ErrorHandling → Attempt ChatResult → ChatDecision
chat_round rest message h (returned (process modified)) = rest (name_or modified message)
chat_round rest message h (returned intercept) = intercepted
chat_round rest message h (threw e) = if is_stop h then chat_failed e else rest message

unfoldable pub execute_chat : List (HookRegistration ChatHook) → String → ChatDecision
execute_chat [] message = processed message
execute_chat (reg ∷ regs) message =
    chat_round (execute_chat regs) message reg.metadata.error_handling (reg.hook message)

pub data HookResult : Type 0 where
  continue : HookResult
  stop : Option String → HookResult
  inject : List String → HookResult

abbrev pub DoneHook : Type 0
DoneHook = String → Attempt HookResult

unfoldable pub execute_done : List (HookRegistration DoneHook) → String → Attempt HookResult
execute_done [] final_text = returned continue
execute_done (reg ∷ regs) final_text = elim (reg.hook final_text) [
  | returned continue ↦ execute_done regs final_text
  | returned (stop reason) ↦ returned (stop reason)
  | returned (inject prompts) ↦ returned (inject prompts)
  | threw e ↦ if is_stop reg.metadata.error_handling then threw e else execute_done regs final_text
]
