-- ===== src/Engine/Tests.antt =====
-- A scenario with a fault and a scaling, on the cluster in memory, and its restore.
use kubernetes_distributed_t.Common.{
  String, [], nat_eq, none, option_eq, refl, some, string_eq, true, ◌∷◌, ◌≡◌,
}
use kubernetes_distributed_t.Common.Exec.{for_each, ok}
use kubernetes_distributed_t.Schema.{
  FaultSpec, KubernetesAction, Scenario, all_replicas, fraud_service, kubernetes_fault, present,
  scale, timeout, to_rule,
}
use kubernetes_distributed_t.Schema
use kubernetes_distributed_t.Control.{World}
use kubernetes_distributed_t.Control
use kubernetes_distributed_t.Control.Sample.{Memory, memory, memory-IsKubernetes}
use kubernetes_distributed_t.Journal
use kubernetes_distributed_t.Engine.{
  after_scale, attempts, changed, kubernetes_action, make_changes, perform, restore, restore_step,
}
use kubernetes_distributed_t.Engine.Changes.{run_is_undone}

abbrev timeout_fault : FaultSpec
timeout_fault = record {
  service = fraud_service;
  operation = "fraud.evaluate";
  mode = timeout;
  delay_ms = none;
  status_code = none;
  phase = none;
  fail_attempts = none;
  every_nth = none;
  max_activations = none;
  ttl_seconds = 300;
  replicas = all_replicas;
  scoped = true;
}

abbrev scale_to_zero : KubernetesAction
scale_to_zero = record {
  action = scale;
  workload = "payment-service";
  at_seconds = 0;
  replicas = some 0;
  restore_after_seconds = none;
}

abbrev outage : Scenario
outage = record {
  id = "outage";
  title = "Outage";
  description = "A timeout and no payment service";
  category = kubernetes_fault;
  faults = timeout_fault ∷ [];
  kubernetes = scale_to_zero ∷ [];
  workload_steps = [];
  application = record {
    statuses = [];
    states = [];
    compensation = none;
    authorizations_per_order = none;
  };
  telemetry = none;
}

abbrev healthy : Memory
healthy = record { counts = λ w. some 2; rules = λ p. [] }

outage_restored :
    (restore memory (attempts memory 1 (changed memory outage "r1" healthy))).0 ≡ ok tt
unfolding restore restore_step attempts changed make_changes kubernetes_action perform after_scale
    for_each Control.scale Control.current_replicas Control.apply_fault Control.inject
    Control.clear_faults Control.clear_pods Control.running_pods Control.ready_pods
    Control.restore_replicas Control.wait_rollout_complete Control.reset_circuit_breakers
    Journal.restore_plan Journal.collect Journal.visit Schema.to_rule Schema.present
outage_restored = refl

run_is_undone_example :
    ((v : String)
      → (restore memory (attempts memory 1 (changed memory outage "r1" healthy))).1.cluster.counts v
        ≡ some 2)
    × ((p : String)
        → (restore memory (attempts memory 1 (changed memory outage "r1" healthy))).1.cluster.rules
            p
          ≡ [])
unfolding memory-IsKubernetes
run_is_undone_example =
    run_is_undone memory memory-IsKubernetes outage "r1" healthy 1 (λ p. refl) outage_restored
