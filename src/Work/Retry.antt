-- ===== src/Work/Retry.antt =====
-- src/core/queue/async-utils.ts: retryWithBackoff. The n-th call of `fn` gives what `calls n` says: a value,
-- or an error. The result is the value or the last error, with the waits before it.
use Prim.Native.Nat.{zero}
use native.Mathlib.Nat.{pow-zero, pow-suc, mul_assoc}
use open_supervisor.Prelude.{
  ap₂, ◌≤◌, ◌∙◌, sym, refl, ap, arith, ◌+◌, ◌<◌, ◌∷◌, ◌^◌, ◌*◌, false, min, if◌then◌else◌, [], true,
  String, List, suc, Bool, ◌≡◌, ℕ,
}

pub data Attempt {ℓ} (T : Type ℓ) : Type ℓ where
  returned : T → Attempt T
  threw : String → Attempt T

pub record BackoffOptions : Type 0 where
  pub max_retries : ℕ
  pub initial_delay : ℕ
  pub max_delay : ℕ
  pub backoff_factor : ℕ

abbrev pub default_options : BackoffOptions
default_options = record {
  max_retries = 3;
  initial_delay = 1000;
  max_delay = 30000;
  backoff_factor = 2;
}

module _ {ℓ} {T : Type ℓ} where
  -- The loop with `left` retries left, from the call `n` on.
  unfoldable pub retry_from : BackoffOptions → (ℕ → Attempt T) → ℕ → ℕ → ℕ → Attempt T × List ℕ
  retry_from o calls zero n delay = (calls n, [])
  retry_from o calls (suc left) n delay =
      let (result, waits) =
        retry_from o calls left (suc n) (min (delay * o.backoff_factor) o.max_delay) in
      elim (calls n) [ returned t ↦ (returned t, []) | threw e ↦ (result, delay ∷ waits) ]

  unfoldable pub retry_with_backoff : BackoffOptions → (ℕ → Attempt T) → Attempt T × List ℕ
  retry_with_backoff o calls = retry_from o calls o.max_retries 0 o.initial_delay

  abbrev pub is_returned : Attempt T → Bool
  is_returned (returned t) = true
  is_returned (threw e) = false

  -- How many of the allowed retries from the call `n` on are made: until a call returns.
  abbrev pub retries : (ℕ → Attempt T) → ℕ → ℕ → ℕ
  retries calls zero n = 0
  retries calls (suc left) n = if is_returned (calls n) then 0 else suc (retries calls left (suc n))

min_step : (a m f : ℕ) → 0 < f → min (min a m * f) m ≡ min (a * f) m
min_step a m zero h = absurd (omega arith)
min_step a m (suc g) h = ground arith

-- The waits before `k` retries from the call `n` on: they grow by the factor up to the maximum.
abbrev pub waits_of : BackoffOptions → ℕ → ℕ → List ℕ
waits_of o zero n = []
waits_of o (suc k) n =
    min (o.initial_delay * o.backoff_factor ^ n) o.max_delay ∷ waits_of o k (suc n)

grown :
    (o : BackoffOptions) (n delay : ℕ)
    → delay ≡ min (o.initial_delay * o.backoff_factor ^ n) o.max_delay
    → 0 < o.backoff_factor
    → min (delay * o.backoff_factor) o.max_delay
      ≡ min (o.initial_delay * o.backoff_factor ^ suc n) o.max_delay
grown o n delay e h =
    let power : o.initial_delay * o.backoff_factor ^ n * o.backoff_factor
        ≡ o.initial_delay * o.backoff_factor ^ suc n =
      mul_assoc o.initial_delay (o.backoff_factor ^ n) o.backoff_factor
      ∙ ap (λ x. o.initial_delay * x) (sym (pow-suc o.backoff_factor n)) in
    ap (λ d. min (d * o.backoff_factor) o.max_delay) e
    ∙ min_step (o.initial_delay * o.backoff_factor ^ n) o.max_delay o.backoff_factor h
    ∙ ap (λ x. min x o.max_delay) power

module _ {ℓ} {T : Type ℓ} where
  retry_from-retries :
      (o : BackoffOptions) (calls : ℕ → Attempt T) (left n delay : ℕ)
      → delay ≡ min (o.initial_delay * o.backoff_factor ^ n) o.max_delay
      → 0 < o.backoff_factor
      → retry_from o calls left n delay
        ≡ (calls (n + retries calls left n), waits_of o (retries calls left n) n)
  unfolding retry_from
  retry_from-retries o calls zero n delay e h =
      let here : n ≡ n + 0 = omega arith in ap (λ k. (calls k, [])) here
  retry_from-retries o calls (suc left) n delay e h =
      by_call
        (retry_from-retries o calls left (suc n) (min (delay * o.backoff_factor) o.max_delay)
          (grown o n delay e h) h)
        (calls n) refl
    where
      by_call :
          (ih : retry_from o calls left (suc n) (min (delay * o.backoff_factor) o.max_delay) ≡ (
            calls (suc n + retries calls left (suc n)),
            waits_of o (retries calls left (suc n)) (suc n),
          ))
          (r : Attempt T)
          → calls n ≡ r
          → retry_from o calls (suc left) n delay
            ≡ (calls (n + retries calls (suc left) n), waits_of o (retries calls (suc left) n) n)
      by_call ih (returned t) r =
          let here : n ≡ n + 0 = omega arith in
          rw (r, retry_from) (ap (λ c. (c, [])) (sym r ∙ ap calls here))
      by_call ih (threw m) r =
          let next : suc n + retries calls left (suc n) ≡ n + suc (retries calls left (suc n)) =
            omega arith in
          rw (r, retry_from)
            (ap (λ q. (q.0, delay ∷ q.1)) ih
              ∙ ap₂ (λ j d. (calls j, d ∷ waits_of o (retries calls left (suc n)) (suc n))) next e)

  -- If the factor is not zero and the initial delay is at most the maximum:
  -- the outcome is that of the first call that returns, or of the last one allowed, `maxRetries` retries
  -- after the first call; before each retry it waits, at first for the initial delay, then for the
  -- initial delay times a power of the factor, but never longer than the maximum.
  pub retry_with_backoff-retries :
      (o : BackoffOptions) (calls : ℕ → Attempt T)
      → 0 < o.backoff_factor
      → o.initial_delay ≤ o.max_delay
      → retry_with_backoff o calls
        ≡ (calls (retries calls o.max_retries 0), waits_of o (retries calls o.max_retries 0) 0)
  unfolding retry_with_backoff
  retry_with_backoff-retries o calls h le =
      let none_added : 0 + retries calls o.max_retries 0 ≡ retries calls o.max_retries 0 =
        omega arith in
      let first : o.initial_delay ≡ min (o.initial_delay * o.backoff_factor ^ 0) o.max_delay =
        rw pow-zero (omega arith) in
      retry_from-retries o calls o.max_retries 0 o.initial_delay first h
      ∙ ap (λ k. (calls k, waits_of o (retries calls o.max_retries 0) 0)) none_added
