-- ===== src/Recovery/HandlerLaws.antt =====
-- src/core/recovery/handler.ts: the history is bounded, and when withRecovery ends.
use Prim.Native.Nat.{zero}
use open_supervisor.Recovery.Regex.{units, test}
use open_supervisor.Recovery.Errors.{text_of, Failure}
use open_supervisor.Recovery.Handler.{
  gave, context_of, with_recovery, after_call, on_action, threw, out_of_fuel, handle_error,
  recovery_from, Recovered, Called, matching, abort, compact, escalate, remembered, act, skip,
  max_history, retry, RecoveryAction, recovery_patterns, ErrorPattern, ErrorContext, RecoveryRecord,
}
use open_supervisor.Prelude.{
  ltb, suc, ◌<◌, ◌≢◌, refl, String, [], length-append, inr, arith, subst, inl, Bool-cases, ◌≤◌, ◌+◌,
  none, true, ◌∷◌, find, ◌≡◌, length, some, All, List, false, str_eq, Bool, Option, ℕ,
}

remembered_bounded :
    (r : RecoveryRecord) (history : List RecoveryRecord)
    → length history ≤ max_history
    → length (remembered r history) ≤ max_history
remembered_bounded r [] h = omega arith
remembered_bounded r (x ∷ history) h = ground (arith, length-append history (r ∷ []))

act_bounded :
    (p : Option ErrorPattern) (ctx : ErrorContext) (history : List RecoveryRecord)
    → length history ≤ max_history
    → length (act p ctx history).1 ≤ max_history
act_bounded none ctx history h = h
act_bounded (some p) ctx history h = remembered_bounded _ history h

-- An action is a retry only with the next attempt counted up.
abbrev pub CountsUp : ErrorContext → RecoveryAction → Type 0
CountsUp ctx (retry delay attempt prompt) = attempt ≡ ctx.attempt + 1
CountsUp ctx (skip reason) = Unit
CountsUp ctx (escalate to reason) = Unit
CountsUp ctx (compact reason) = Unit
CountsUp ctx (abort reason) = Unit

abbrev pub is_gibberish : Option ErrorPattern → Bool
is_gibberish none = false
is_gibberish (some p) = str_eq p.category "gibberish"

abbrev Sound : ErrorPattern → Type 0
Sound p =
    (str_eq p.category "gibberish" ≡ false → (ctx : ErrorContext) → CountsUp ctx (p.handler ctx))
    × (str_eq p.category "gibberish" ≡ true
        → (ctx : ErrorContext) → p.handler ctx ≡ retry 1000 1 none)

every-Sound : All Sound recovery_patterns
unfolding recovery_patterns
every-Sound = (
  (λ e ctx. refl, λ e. cc),
  (
    (λ e ctx. tt, λ e. cc),
    (
      (λ e ctx. ground arith, λ e. cc),
      (
        (λ e ctx. tt, λ e. cc),
        (
          (λ e ctx. tt, λ e. cc),
          (
            (λ e ctx. ground arith, λ e. cc),
            ((λ e. cc, λ e ctx. refl), ((λ e ctx. refl, λ e. cc), ((λ e ctx. refl, λ e. cc), tt))),
          ),
        ),
      ),
    ),
  ),
)

find-All {ℓ κ} :
    {A : Type ℓ}
    → (P : A → Type κ) → (p : A → Bool) → (xs : List A) → (a : A) → All P xs
    → find p xs ≡ some a
    → P a
find-All P p [] a h e = cc
find-All P p (x ∷ xs) a h e = elim (Bool-cases (p x)) [
  | inl hit ↦ subst P (ground (arith, rw hit at e)) h.0
  | inr miss ↦ find-All P p xs a h.1 (rw miss at e)
]

matched-Sound : (e : Failure) (p : ErrorPattern) → matching e ≡ some p → Sound p
unfolding matching
matched-Sound e p h =
    find-All Sound (λ q. test q.pattern (units (text_of e))) recovery_patterns p every-Sound h

act-CountsUp :
    (found : Option ErrorPattern) (ctx : ErrorContext) (history : List RecoveryRecord)
    → matching ctx.error ≡ found
    → is_gibberish found ≡ false
    → CountsUp ctx (act found ctx history).0
act-CountsUp none ctx history e h = ground arith
act-CountsUp (some p) ctx history e h = (matched-Sound ctx.error p e).0 h ctx

act_gibberish :
    (found : Option ErrorPattern) (ctx : ErrorContext) (history : List RecoveryRecord)
    → matching ctx.error ≡ found
    → is_gibberish found ≡ true
    → (act found ctx history).0 ≡ retry 1000 1 none
act_gibberish none ctx history e h = cc
act_gibberish (some p) ctx history e h = (matched-Sound ctx.error p e).1 h ctx

module _ {ℓ} {T : Type ℓ} (session : String) (calls : ℕ → Called T) (limit : ℕ) where
  on_action_ends :
      (e : Failure) (ctx : ErrorContext) (action : RecoveryAction) (h : List RecoveryRecord)
      (rest : Recovered T × List RecoveryRecord)
      → CountsUp ctx action
      → (ctx.attempt + 1 ≤ limit → rest.0 ≢ out_of_fuel)
      → (on_action limit e action h rest).0 ≢ out_of_fuel
  on_action_ends e ctx (retry delay attempt prompt) h rest up k q =
      elim (Bool-cases (ltb limit attempt)) [
        | inl over ↦ cc (rw over at q)
        | inr room ↦ k (ground (arith, up, room)) (rw room at q)
      ]
  on_action_ends e ctx (skip reason) h rest up k q = cc q
  on_action_ends e ctx (escalate to reason) h rest up k q = cc q
  on_action_ends e ctx (compact reason) h rest up k q = cc q
  on_action_ends e ctx (abort reason) h rest up k q = cc q

  after_call_ends :
      (attempt : ℕ) (call : Called T) (h : List RecoveryRecord)
      (rest : List RecoveryRecord → Recovered T × List RecoveryRecord)
      → ((e : Failure) → call ≡ threw e → is_gibberish (matching e) ≡ false)
      → ((k : List RecoveryRecord) → attempt + 1 ≤ limit → (rest k).0 ≢ out_of_fuel)
      → (after_call limit (context_of session attempt) call h rest).0 ≢ out_of_fuel
  unfolding handle_error
  after_call_ends attempt (gave t) h rest g k = λ q. cc q
  after_call_ends attempt (threw e) h rest g k =
      let ctx : ErrorContext = context_of session attempt e in
      let r = act (matching e) ctx h in
      on_action_ends e ctx r.0 r.1 (rest r.1) (act-CountsUp (matching e) ctx h refl (g e refl))
        (k r.1)

  recovery_from_ends :
      (fuel attempt : ℕ) (history : List RecoveryRecord)
      → ((n : ℕ) (e : Failure) → calls n ≡ threw e → is_gibberish (matching e) ≡ false)
      → 0 < fuel
      → limit ≤ fuel + attempt
      → (recovery_from session calls limit fuel attempt history).0 ≢ out_of_fuel
  unfolding recovery_from
  recovery_from_ends zero attempt history g f le = absurd (omega arith)
  recovery_from_ends (suc fuel) attempt history g f le =
      after_call_ends (attempt + 1) (calls attempt) history _ (g attempt)
        (λ k room. recovery_from_ends fuel (attempt + 1) k g (omega arith) (omega arith))

  -- If no error that the function throws is taken for gibberish, withRecovery calls the function at most
  -- as often as there are retries allowed, and at least once: this much fuel is enough.
  pub with_recovery_ends :
      (fuel : ℕ) (history : List RecoveryRecord)
      → ((n : ℕ) (e : Failure) → calls n ≡ threw e → is_gibberish (matching e) ≡ false)
      → 0 < fuel
      → limit ≤ fuel
      → (with_recovery session calls limit fuel history).0 ≢ out_of_fuel
  unfolding with_recovery
  with_recovery_ends fuel history g f le = recovery_from_ends fuel 0 history g f (omega arith)

module _ (T : Type 0) (session : String) (errors : ℕ → Failure) (limit : ℕ) where
  stuck :
      (fuel attempt : ℕ) (history : List RecoveryRecord)
      → ((n : ℕ) → is_gibberish (matching (errors n)) ≡ true)
      → 0 < limit
      → (recovery_from {T = T} session (λ n. threw (errors n)) limit fuel attempt history).0
        ≡ out_of_fuel
  unfolding recovery_from handle_error
  stuck zero attempt history g h = refl
  stuck (suc fuel) attempt history g h =
      rw
        (
          act_gibberish (matching (errors attempt))
              (context_of session (attempt + 1) (errors attempt)) history refl (g attempt),
          room,
        )
        (stuck fuel (attempt + 1) _ g h)
    where
      room : ltb limit 1 ≡ false
      room = ground arith

  -- When every call throws an error that is taken for gibberish, withRecovery never ends, whatever limit
  -- of retries above zero it has: the action always says that the next attempt is the first one.
  pub gibberish_forever :
      (fuel : ℕ) (history : List RecoveryRecord)
      → ((n : ℕ) → is_gibberish (matching (errors n)) ≡ true)
      → 0 < limit
      → (with_recovery {T = T} session (λ n. threw (errors n)) limit fuel history).0 ≡ out_of_fuel
  unfolding with_recovery
  gibberish_forever fuel history g h = stuck fuel 0 history g h
