-- ===== src/Hooks/ExecuteLaws.antt =====
-- src/hooks/registry.ts: the hooks run in order, each on what those before left, and stop at the first
-- that decides.
use open_supervisor.Hooks.Registry.{name_or, ErrorHandling, HookRegistration}
use open_supervisor.Prelude.{arith, none, some, refl, [], ◌∷◌, ◌≡◌, ◌++◌, List, String}
use open_supervisor.Hooks.Execute.{
  intercept, allow, block, threw, process, modify, chat_round, returned, pre_tool_round, ChatResult,
  PreToolResult, Attempt, intercepted, chat_failed, failed, PreToolHook, ChatHook, processed,
  blocked, allowed, ChatDecision, execute_pre_tool, Decision, execute_chat,
}

-- Runs the second part of the hooks after the first has decided.
abbrev pub after_pre_tool {ℓ} : {A : Type ℓ} → Decision A → (A → Decision A) → Decision A
after_pre_tool (allowed args) rest = rest args
after_pre_tool (blocked reason) rest = blocked reason
after_pre_tool (failed e) rest = failed e

pre_tool_round-after {ℓ} :
    {A : Type ℓ}
    → (f g : A → Decision A) → (k : A → Decision A) → (args : A) → (h : ErrorHandling)
    → (r : Attempt (PreToolResult A)) → ((a : A) → f a ≡ after_pre_tool (g a) k)
    → pre_tool_round f args h r ≡ after_pre_tool (pre_tool_round g args h r) k
pre_tool_round-after f g k args h (returned allow) e = e args
pre_tool_round-after f g k args h (returned (modify (some new_args))) e = e new_args
pre_tool_round-after f g k args h (returned (modify none)) e = e args
pre_tool_round-after f g k args h (returned (block reason)) e = refl
pre_tool_round-after f g k args h (threw m) e = ground (arith, e args)

-- The hooks of a list run before those of the next list: these see the arguments that the first left, and
-- do not run once one of the first has blocked the call or thrown with error handling "stop".
pub execute_pre_tool-append {ℓ} :
    {A : Type ℓ}
    → (xs ys : List (HookRegistration (PreToolHook A))) → (args : A)
    → execute_pre_tool (xs ++ ys) args
      ≡ after_pre_tool (execute_pre_tool xs args) (execute_pre_tool ys)
unfolding execute_pre_tool
execute_pre_tool-append [] ys args = refl
execute_pre_tool-append (reg ∷ xs) ys args =
    pre_tool_round-after (execute_pre_tool (xs ++ ys)) (execute_pre_tool xs) (execute_pre_tool ys)
      args reg.metadata.error_handling (reg.hook args) (execute_pre_tool-append xs ys)

abbrev pub after_chat : ChatDecision → (String → ChatDecision) → ChatDecision
after_chat (processed message) rest = rest message
after_chat intercepted rest = intercepted
after_chat (chat_failed e) rest = chat_failed e

chat_round-after :
    (f g k : String → ChatDecision) (message : String) (h : ErrorHandling) (r : Attempt ChatResult)
    → ((m : String) → f m ≡ after_chat (g m) k)
    → chat_round f message h r ≡ after_chat (chat_round g message h r) k
chat_round-after f g k message h (returned (process modified)) e = e (name_or modified message)
chat_round-after f g k message h (returned intercept) e = refl
chat_round-after f g k message h (threw m) e = ground (arith, e message)

-- The chat hooks of a list run before those of the next list: these see the message that the first left,
-- and do not run once one of the first has intercepted it or thrown with error handling "stop".
pub execute_chat-append :
    (xs ys : List (HookRegistration ChatHook)) (message : String)
    → execute_chat (xs ++ ys) message ≡ after_chat (execute_chat xs message) (execute_chat ys)
unfolding execute_chat
execute_chat-append [] ys message = refl
execute_chat-append (reg ∷ xs) ys message =
    chat_round-after (execute_chat (xs ++ ys)) (execute_chat xs) (execute_chat ys) message
      reg.metadata.error_handling (reg.hook message) (execute_chat-append xs ys)
