-- ===== src/Workload/Tests.antt =====
-- A spike of one second, a token, and their requests.
use kubernetes_distributed_t.Workload.Offsets.{Before, schedule-Before}
use kubernetes_distributed_t.Workload.Tokens.{tamper_lem}
use kubernetes_distributed_t.Workload.{schedule, tamper}
use kubernetes_distributed_t.Schema.{WorkloadStep, check_profile, normal, scenario_runner, spike}
use kubernetes_distributed_t.Common.{
  All, [], false, length, nat_eq, none, option_eq, refl, some, string_eq, ℕ, ◌∷◌, ◌≡◌, ◌≢◌,
}
use kubernetes_distributed_t.Common.Exec.{ok}

-- Two requests in a second for three seconds, but ten in the middle one.
abbrev spike_step : WorkloadStep
spike_step = record {
  profile = spike;
  requests = 1;
  concurrency = 1;
  rate_per_second = some 2000;
  duration_seconds = some 3000;
  spike_rate_per_second = some 10_000;
  spike_seconds = some 1000;
  order = normal;
  identity = scenario_runner;
  debug = false;
  delay_seconds = 0;
  label = "";
}

spike_accepted : check_profile spike_step ≡ none
unfolding check_profile
spike_accepted = refl

schedule-Before_example : All (Before 3000) (schedule spike_step)
schedule-Before_example = schedule-Before spike_step 3000 spike_accepted refl refl

fourteen_requests : length (schedule spike_step) ≡ 14
unfolding schedule
fourteen_requests = refl

-- `a.bA` and `a.bB`
tamper_lem_example :
    (d : ℕ) × (d ≢ 65) × (tamper (97 ∷ 46 ∷ 98 ∷ 65 ∷ []) ≡ ok (97 ∷ 46 ∷ 98 ∷ d ∷ []))
tamper_lem_example = tamper_lem (97 ∷ []) (98 ∷ []) 65 refl
