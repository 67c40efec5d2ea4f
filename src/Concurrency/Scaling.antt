-- ===== src/Concurrency/Scaling.antt =====
-- src/core/agents/concurrency.ts: how reported results move the limit of a key.
use open_supervisor.Concurrency.Cases.{scale_down_cases, scale_up_cases}
use open_supervisor.Concurrency.Frame.{
  put_circuit-Same, config-scale_down, config-scale_up, limit_of_limits, limit_of_set,
}
use open_supervisor.Concurrency.Control.{
  note_failure, note_success, report_result, scale_up, scale_down, lowered, raised,
}
use open_supervisor.Prelude.Map.{Map}
use open_supervisor.Concurrency.State.{
  get_circuit, set_limit, put_circuit, CircuitBreaker, max_concurrency, or_infinity, finite,
  get_concurrency_limit, Limit, Controller,
}
use open_supervisor.Prelude.{
  lt→ltb, leb, inr, inl, ◌∙◌, false, true, ◌⊎◌, Bool, sym, refl, arith, subst, ◌<◌, eq_refl, ◌≤◌,
  ◌-◌, ◌+◌, some, ◌≡◌, String, ℕ,
}
use open_supervisor.Prelude.Map

raised_bound :
    (n : ℕ) (l : Limit)
    → raised (finite n) ≡ some l
    → (or_infinity l ≡ finite (n + 1)) × (n + 1 ≤ max_concurrency)
raised_bound n l e = ground arith

lowered_bound :
    (n : ℕ) (l : Limit) → lowered (finite n) ≡ some l → (or_infinity l ≡ finite (n - 1)) × (1 < n)
lowered_bound n l e = ground arith

module _ (c : Controller) (key : String) where
  limits_only : Map Limit → Controller
  limits_only m = record c { limits = m }

  set_limits :
      (l : Limit) → get_concurrency_limit (limits_only (Map.set key l c.limits)) key ≡ or_infinity l
  unfolding limits_only
  set_limits l =
      rw (limit_of_set key key l c (limits_only (Map.set key l c.limits)) refl refl, eq_refl key)

  module _ (P : Limit → Type 0) (stay : P (get_concurrency_limit c key)) where
    -- The limit after a reported success, and after a reported failure.
    pub limit-scale_up :
        ((l : Limit) → raised (get_concurrency_limit c key) ≡ some l → P (or_infinity l))
        → P (get_concurrency_limit (scale_up c key) key)
    unfolding limits_only
    limit-scale_up grow =
        subst P
          (limit_of_limits key (scale_up c key) (limits_only (scale_up c key).limits) refl
            (sym (config-scale_up key c)))
          (scale_up_cases (λ m. P (get_concurrency_limit (limits_only m) key)) c key stay
            (λ l e. rw (set_limits l) (grow l e)))

    pub limit-scale_down :
        ((l : Limit) → lowered (get_concurrency_limit c key) ≡ some l → P (or_infinity l))
        → P (get_concurrency_limit (scale_down c key) key)
    unfolding limits_only
    limit-scale_down shrink =
        subst P
          (limit_of_limits key (scale_down c key) (limits_only (scale_down c key).limits) refl
            (sym (config-scale_down key c)))
          (scale_down_cases (λ m. P (get_concurrency_limit (limits_only m) key)) c key stay
            (λ l e. rw (set_limits l) (shrink l e)))

-- How one reported result may move a limit: not at all, up by one to at most the maximum on a
-- success, or down by one to at least one on a failure.
abbrev pub Moved : Bool → ℕ → Limit → Type 0
Moved success n l =
    (m : ℕ) × (l ≡ finite m)
    × ((m ≡ n)
        ⊎ (((success ≡ true) × (m ≡ n + 1) × (m ≤ max_concurrency))
            ⊎ ((success ≡ false) × (m + 1 ≡ n) × (1 ≤ m))))

probed_limit :
    (c : Controller) (key : String) (b : CircuitBreaker)
    → get_concurrency_limit (put_circuit c key b) key ≡ get_concurrency_limit c key
probed_limit c key b = (put_circuit-Same key c key b).limit

-- A reported result of a key whose limit is a number leaves a number as its limit: the same one,
-- one more (on a success, and never above 50), or one less (on a failure, and never below 1).
pub report_result-Moved :
    (c : Controller) (key : String) (success : Bool) (now n : ℕ)
    → get_concurrency_limit c key ≡ finite n
    → (m : ℕ) × (get_concurrency_limit (report_result c key success now) key ≡ finite m)
      × ((m ≡ n)
          ⊎ (((success ≡ true) × (m ≡ n + 1) × (m ≤ max_concurrency))
              ⊎ ((success ≡ false) × (m + 1 ≡ n) × (1 ≤ m))))
unfolding report_result
report_result-Moved c key true now n e =
    let p = put_circuit c key (note_success (get_circuit c key)) in
    let q : get_concurrency_limit p key ≡ finite n = probed_limit c key _ ∙ e in
    limit-scale_up p key (Moved true n) (n, q, inl refl)
      λ l r. let b = raised_bound n l (rw q at r) in (n + 1, b.0, inr (inl (refl, refl, b.1)))
report_result-Moved c key false now n e =
    let p = put_circuit c key (note_failure now (get_circuit c key)) in
    let q : get_concurrency_limit p key ≡ finite n = probed_limit c key _ ∙ e in
    limit-scale_down p key (Moved false n) (n, q, inl refl)
      λ l r.
        let b = lowered_bound n l (rw q at r) in
        (n - 1, b.0, inr (inr (refl, omega (arith, b.1), omega (arith, b.1))))

third_limits :
    (c : Controller) (key : String) (n : ℕ)
    → get_concurrency_limit c key ≡ finite n
    → n < max_concurrency
    → 2 ≤ Map.get_or key 0 c.success_streak
    → ((scale_up c key).limits ≡ Map.set key (finite (n + 1)) c.limits)
      × (Map.get_or key 0 (scale_up c key).success_streak ≡ 0)
unfolding scale_up set_limit
third_limits c key n e lt h =
    let full : leb 3 (Map.get_or key 0 c.success_streak + 1) ≡ true = ground arith in
    rw (full, e, scale_up) (rw (lt→ltb n max_concurrency lt) (refl, Map.get_or-set_self key 0 0 _))

-- The third success in a row raises a limit below the maximum by one and starts a new streak.
pub third_success :
    (c : Controller) (key : String) (now n : ℕ)
    → get_concurrency_limit c key ≡ finite n
    → n < max_concurrency
    → 2 ≤ Map.get_or key 0 c.success_streak
    → (get_concurrency_limit (report_result c key true now) key ≡ finite (n + 1))
      × (Map.get_or key 0 (report_result c key true now).success_streak ≡ 0)
unfolding report_result put_circuit
third_success c key now n e lt h =
    let p = put_circuit c key (note_success (get_circuit c key)) in
    let (limits, streak) = third_limits p key n (probed_limit c key _ ∙ e) lt h in
    (
      limit_of_set key key (finite (n + 1)) p (scale_up p key) limits (config-scale_up key p)
          ∙ rw (eq_refl key) (ground arith),
      streak,
    )
