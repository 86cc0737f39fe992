-- ===== src/Schema/Tests.antt =====
-- Faults, actions and traffic steps that pass their validators.
use kubernetes_distributed_t.Common.{
  false, nat_eq, none, option_eq, refl, some, string_eq, true, ◌↔◌, ◌≡◌, ◌≢◌,
}
use kubernetes_distributed_t.Common.Dict.{lookup}
use kubernetes_distributed_t.Schema.{
  FaultSpec, KubernetesAction, WorkloadStep, after_effect, all_replicas, check_action,
  check_parameters, check_profile, fault_in_bounds, intermittent, latency, normal, payment_service,
  scale, scenario_runner, spike, to_rule, workloads,
}
use kubernetes_distributed_t.Schema.Faults.{
  IsConsistent, check_parameters_iff, to_rule-IsRuleOf, IsRuleOf,
}
use kubernetes_distributed_t.Schema.Steps.{IsPlayable, check_action_iff, check_profile_iff}

abbrev slow_payment : FaultSpec
slow_payment = record {
  service = payment_service;
  operation = "payment.authorize";
  mode = latency;
  delay_ms = some 2500;
  status_code = none;
  phase = some after_effect;
  fail_attempts = none;
  every_nth = none;
  max_activations = none;
  ttl_seconds = 300;
  replicas = all_replicas;
  scoped = true;
}

slow_payment_valid : check_parameters slow_payment ≡ none
unfolding check_parameters
slow_payment_valid = refl

slow_payment_bounds : fault_in_bounds slow_payment ≡ true
unfolding fault_in_bounds
slow_payment_bounds = refl

check_parameters_iff_example : (check_parameters slow_payment ≡ none) ↔ IsConsistent slow_payment
check_parameters_iff_example = check_parameters_iff slow_payment

-- A fault that fails every third call.
abbrev flaky_payment : FaultSpec
flaky_payment = record slow_payment {
  mode = intermittent;
  delay_ms = none;
  status_code = some 503;
  phase = none;
  every_nth = some 3;
}

flaky_payment_valid : check_parameters flaky_payment ≡ none
unfolding check_parameters
flaky_payment_valid = refl

flaky_payment_bounds : fault_in_bounds flaky_payment ≡ true
unfolding fault_in_bounds
flaky_payment_bounds = refl

to_rule-IsRuleOf_example : IsRuleOf flaky_payment "r1" (to_rule flaky_payment "r1")
to_rule-IsRuleOf_example =
    to_rule-IsRuleOf flaky_payment "r1" flaky_payment_bounds flaky_payment_valid

abbrev scale_down : KubernetesAction
scale_down = record {
  action = scale;
  workload = "payment-service";
  at_seconds = 5_000;
  replicas = some 0;
  restore_after_seconds = some 20_000;
}

check_action_iff_example : (check_action scale_down ≡ none) ↔ (
    (lookup "payment-service" workloads ≢ none)
    × ((scale ≡ scale) ↔ (scale_down.replicas ≢ none))
    × (scale_down.restore_after_seconds ≢ none → scale ≡ scale))
check_action_iff_example = check_action_iff scale_down

abbrev burst_of_orders : WorkloadStep
burst_of_orders = record {
  profile = spike;
  requests = 1;
  concurrency = 20;
  rate_per_second = some 5_000;
  duration_seconds = some 30_000;
  spike_rate_per_second = some 40_000;
  spike_seconds = some 10_000;
  order = normal;
  identity = scenario_runner;
  debug = false;
  delay_seconds = 0;
  label = "spike";
}

check_profile_iff_example : (check_profile burst_of_orders ≡ none) ↔ IsPlayable burst_of_orders
check_profile_iff_example = check_profile_iff burst_of_orders
