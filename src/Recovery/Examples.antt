-- ===== src/Recovery/Examples.antt =====
-- The theorems about src/core/recovery at concrete inputs, and tests.
use open_supervisor.Recovery.HandlerLaws.{is_gibberish, gibberish_forever, with_recovery_ends}
use open_supervisor.Recovery.Regex.{match_at, test}
use open_supervisor.Recovery.Session.{handle_session_error}
use open_supervisor.Recovery.SessionLaws.{recoveries_bounded, errs, Event, recoveries}
use open_supervisor.Recovery.Handler.{
  out_of_fuel, recovery_patterns, threw, Called, with_recovery, matching,
}
use open_supervisor.Recovery.Errors.{rate_limit, error_patterns, Failure, detect_error_type}
use open_supervisor.Prelude.{
  sym, ap, false, arith, true, some, refl, ◌∷◌, ◌≤◌, ◌≡◌, ◌≢◌, [], String, List, ℕ,
}
use open_supervisor.Prelude.Map

abbrev failure : String → Failure
failure text = record { message = text; name = "Error" }

retry_test : detect_error_type (failure "Rate-Limit exceeded") ≡ some rate_limit
unfolding detect_error_type error_patterns test match_at
retry_test = refl

abbrev garbled : ℕ → Failure
garbled n = failure "gibberish"

garbled-is_gibberish : (n : ℕ) → is_gibberish (matching (garbled n)) ≡ true
unfolding matching recovery_patterns test match_at
garbled-is_gibberish n = refl

gibberish_forever_example :
    (with_recovery {T = ℕ} "s" (λ n. threw (garbled n)) 3 7 []).0 ≡ out_of_fuel
gibberish_forever_example =
    gibberish_forever ℕ "s" garbled 3 7 [] garbled-is_gibberish (omega arith)

abbrev unreachable : ℕ → Called ℕ
unreachable n = threw (failure "network down")

unreachable-not_gibberish :
    (n : ℕ) (e : Failure) → unreachable n ≡ threw e → is_gibberish (matching e) ≡ false
unfolding matching recovery_patterns test match_at
unreachable-not_gibberish n e h =
    let same : failure "network down" ≡ e = ground (arith, h) in
    ap (λ f. is_gibberish (matching f)) (sym same)

with_recovery_ends_example : (with_recovery "s" unreachable 3 3 []).0 ≢ out_of_fuel
with_recovery_ends_example =
    with_recovery_ends "s" unreachable 3 3 [] unreachable-not_gibberish (omega arith) (omega arith)

abbrev errors : List Event
errors =
    errs 100000 "s" (failure "thinking disabled")
    ∷ errs 100010 "s" (failure "thinking disabled")
    ∷ errs 200000 "s" (failure "thinking disabled")
    ∷ []

recoveries_bounded_example : recoveries "s" errors [] [] ≤ 3
unfolding Map.get_or
recoveries_bounded_example = recoveries_bounded "s" errors [] []

recoveries_test : recoveries "s" errors [] [] ≡ 2
unfolding recoveries handle_session_error detect_error_type error_patterns test match_at Map.get_or
    Map.get Map.set
recoveries_test = refl
