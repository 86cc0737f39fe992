-- ===== src/Control/Tests.antt =====
-- Clearing a fault on the cluster in memory.
use kubernetes_distributed_t.Common.{[], nat_eq, option_eq, refl, some, string_eq, ◌∷◌, ◌≡◌}
use kubernetes_distributed_t.Common.Exec.{ok}
use kubernetes_distributed_t.Schema.{RuleValue}
use kubernetes_distributed_t.Control.{World, clear_faults, clear_pods, running_pods}
use kubernetes_distributed_t.Control.Sample.{Memory, memory, memory-IsKubernetes}
use kubernetes_distributed_t.Control.Faults.{clear_faults_clean}

abbrev faulty : World Memory
faulty = record {
  cluster = record {
    counts = λ w. some 2;
    rules = λ p. (("mode", RuleValue.text "timeout") ∷ []) ∷ [];
  };
  journal = [];
}

faulty_cleared : (clear_faults memory "fraud-service" faulty).0 ≡ ok 1
unfolding clear_faults clear_pods running_pods
faulty_cleared = refl

clear_faults_clean_example :
    (clear_faults memory "fraud-service" faulty).1.cluster.rules "fraud-service" ≡ []
unfolding memory-IsKubernetes
clear_faults_clean_example =
    clear_faults_clean memory memory-IsKubernetes "fraud-service" faulty 1 "fraud-service"
      faulty_cleared refl
