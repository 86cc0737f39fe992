-- ===== src/Validation/Tests.antt =====
-- A suite whose second check fails.
use kubernetes_distributed_t.Common.{
  List, Option, String, [], arith, false, nat_eq, option_eq, refl, some, string_eq, suc, true, ℕ,
  ◌↔◌, ◌∷◌, ◌≡◌,
}
use kubernetes_distributed_t.Common.Exec.{Error, Exec, assertion_error, http_error, ok, raised}
use kubernetes_distributed_t.Validation.{
  CheckOutcome, Suite, outcome, run_checks, run_suite, summarize,
}
use kubernetes_distributed_t.Validation.Runs.{AllReturn, Reported, run_suite-Reported}

-- The state counts the checks that ran.
abbrev passing : Exec ℕ (Option String)
passing n = (ok (some "fine"), suc n)

abbrev failing : Exec ℕ (Option String)
failing n = (raised assertion_error, suc n)

abbrev three_checks : Suite ℕ
three_checks = record {
  name = "edge";
  checks = ("first", passing) ∷ ("second", failing) ∷ ("third", passing) ∷ [];
  cleanup = some (λ n. (raised http_error, 0));
}

abbrev plain : Error → String
plain e = "error"

three_outcomes : run_suite plain three_checks 0 ≡ (
  ok (
      outcome "edge" "first" true "fine"
      ∷ outcome "edge" "second" false "error"
      ∷ outcome "edge" "third" true "fine"
      ∷ []),
  0,
)
unfolding run_suite run_checks
three_outcomes = refl

run_suite-Reported_example :
    (outcomes : List CheckOutcome) × ((run_suite plain three_checks 0).0 ≡ ok outcomes)
    × Reported three_checks.checks 0 outcomes
    × ((summarize outcomes ≡ true) ↔ AllReturn three_checks.checks 0)
run_suite-Reported_example =
    run_suite-Reported plain three_checks 0
      ((λ s e. ground arith), ((λ s e. ground arith), ((λ s e. ground arith), tt)))
      (λ s e. ground arith)
