-- ===== src/Records/Tests.antt =====
-- Verdicts and the latest run.
use kubernetes_distributed_t.Records.{add_check, has_passed, latest_run_id, new_record}
use kubernetes_distributed_t.Common.{
  [], false, nat_eq, option_eq, refl, some, string_eq, true, ◌∷◌, ◌≡◌,
}

empty_fails : has_passed (new_record "run-1" "s1") ≡ false
unfolding has_passed
empty_fails = refl

one_failure_fails :
    has_passed
      (add_check "b" false "telemetry" (add_check "a" true "application" (new_record "run-1" "s1")))
    ≡ false
unfolding has_passed add_check
one_failure_fails = refl

latest_of_scenario :
    latest_run_id
      (("20-a-1", new_record "20-a-1" "a")
        ∷ ("30-b-1", new_record "30-b-1" "b")
        ∷ ("10-a-2", new_record "10-a-2" "a")
        ∷ [])
      (some "a")
    ≡ some "20-a-1"
unfolding latest_run_id
latest_of_scenario = refl
