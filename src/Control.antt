-- ===== src/Control.antt =====
-- Operator actions on the platform (automation/src/txplatform/scenarios/control.py). The Kubernetes
-- API and the services' management endpoints are the parameter `Cluster`; what the code relies on
-- is `IsKubernetes` of Control/Laws. A dictionary of answers by pod is a list of pairs.
pub mod Laws
pub mod Recovery
pub mod Faults
pub mod Sample
mod Tests
use mathlib.Core.Option.{get_or}
use kubernetes_distributed_t.Common.{
  List, Option, String, [], if◌then◌else◌, is_empty, length, map, nat_eq, option_eq, string_eq, ℕ,
  ◌!=◌, ◌++◌, ◌+◌, ◌==◌, ◌∷◌,
}
use kubernetes_distributed_t.Common.Dict.{Dict}
use kubernetes_distributed_t.Common.Exec.{
  ◌>>◌, Exec, Result, api_error, for_each, modify, ok, pure, raise, raised, runtime_error, ◌>>=◌,
}
use kubernetes_distributed_t.Common.Sort.{sorted}
use kubernetes_distributed_t.Kube.{Pod}
use kubernetes_distributed_t.Kube
use kubernetes_distributed_t.Schema.{
  FaultSpec, Replicas, all_replicas, one_replica, RuleValue, service_name, mode_name, to_rule,
  downstream_services,
}
use kubernetes_distributed_t.Journal.{Entry}

abbrev pub Rule : Type 0
Rule = Dict String RuleValue

-- The calls that leave the process. Each may raise, and each may change the cluster, also beside
-- an error; between two of them the cluster may change by itself.
pub record Cluster : Type 1 where
  pub State : Type 0
  -- The pods that the workload's selector matches.
  pub list_pods : String → Exec State (List Pod)
  pub read_pod_uid : (pod : String) → Exec State String
  -- `spec.replicas` of the workload.
  pub read_replicas : (workload : String) → Exec State (Option ℕ)
  pub patch_scale : (workload : String) → ℕ → Exec State (Unit {0})
  pub delete_pod : (pod : String) → Exec State (Unit {0})
  pub patch_restarted : (workload : String) → Exec State (Unit {0})
  -- PUT, GET and DELETE /internal/faults on a pod; PUT answers a status code.
  pub put_fault : (pod : String) → Rule → Exec State ℕ
  pub get_faults : (pod : String) → Exec State (List Rule)
  pub delete_faults : (pod : String) → Exec State ℕ
  -- POST /internal/resilience/reset on a pod.
  pub post_reset : (pod : String) → Exec State (Unit {0})
  -- GET /internal/payments/{order_id} on a pod: the number of authorizations.
  pub get_payment : (pod order_id : String) → Exec State ℕ
  -- `kube.wait_for` on the workload's rollout.
  pub await_rollout : (workload : String) → Exec State (Unit {0})

-- What a scenario run changes: the cluster, and its journal on disk.
pub record World (S : Type 0) : Type 0 where
  pub cluster : S
  pub journal : List Entry

abbrev pub lift : {S A : Type 0} → Exec S A → Exec (World S) A
lift m w = let (r, s') = m w.cluster in (r, record w { cluster = s' })

-- Journal.record
abbrev pub journal_record : {S : Type 0} → Entry → Exec (World S) (Unit {0})
journal_record e = modify (λ w. record w { journal = w.journal ++ e ∷ [] })

module _ (c : Cluster) where
  abbrev pub Op : Type 0 → Type 0
  Op A = Exec (World c.State) A

  unfoldable pub ready_pods : String → Op (List String)
  unfolding sorted Kube.ready_pods
  ready_pods workload = do
    pods ← lift (c.list_pods workload)
    pure (sorted (map (λ p. p.name) (Kube.ready_pods pods)))

  unfoldable pub running_pods : String → Op (List String)
  unfolding sorted Kube.running_pods
  running_pods workload = do
    pods ← lift (c.list_pods workload)
    pure (sorted (map (λ p. p.name) (Kube.running_pods pods)))

  -- `pods if spec.replicas == "all" else pods[:1]`
  abbrev pub targets : Replicas → List String → List String
  targets all_replicas pods = pods
  targets one_replica [] = []
  targets one_replica (pod ∷ pods) = pod ∷ []

  -- The body of the loop of `apply_fault`.
  unfoldable pub inject : FaultSpec → String → String → Op (Unit {0})
  inject spec run_id pod = do
    journal_record
        (Entry.fault (service_name spec.service) pod spec.operation (mode_name spec.mode))
    status ← lift (c.put_fault pod (to_rule spec run_id))
    if status != 201 then raise (runtime_error "fault rule rejected") else pure tt

  abbrev pub inject_into : FaultSpec → String → List String → Op (List String)
  inject_into spec run_id [] = raise (runtime_error "no ready pod to inject a fault into")
  inject_into spec run_id (pod ∷ pods) = do
    for_each (targets spec.replicas (pod ∷ pods)) (inject spec run_id)
    pure (targets spec.replicas (pod ∷ pods))

  unfoldable pub apply_fault : FaultSpec → String → Op (List String)
  unfolding ready_pods inject for_each
  apply_fault spec run_id = ready_pods (service_name spec.service) >>= inject_into spec run_id

  -- The rules of each pod of `pods`.
  pub faults_by_pod : List String → Op (List (String × List Rule))
  faults_by_pod [] = pure []
  faults_by_pod (pod ∷ pods) = do
    rules ← lift (c.get_faults pod)
    rest ← faults_by_pod pods
    pure ((pod, rules) ∷ rest)

  pub list_faults : String → Op (List (String × List Rule))
  unfolding running_pods faults_by_pod
  list_faults service = running_pods service >>= faults_by_pod

  -- The loop of `clear_faults`, over the pods left.
  unfoldable pub clear_pods : ℕ → List String → Op ℕ
  clear_pods removed [] = pure removed
  clear_pods removed (pod ∷ pods) = do n ← lift (c.delete_faults pod); clear_pods (removed + n) pods

  unfoldable pub clear_faults : String → Op ℕ
  unfolding running_pods clear_pods
  clear_faults service = running_pods service >>= clear_pods 0

  -- `{pod: len(rules) for … if rules}`
  abbrev pub left_over : List (String × List Rule) → List (String × ℕ)
  left_over [] = []
  left_over ((pod, rules) ∷ rest) =
      let others = left_over rest in if is_empty rules then others else (pod, length rules) ∷ others

  pub leftover_in : List String → Op (List (String × ℕ))
  unfolding list_faults
  leftover_in [] = pure []
  leftover_in (service ∷ services) = do
    found ← list_faults service
    rest ← leftover_in services
    pure (left_over found ++ rest)

  pub leftover_faults : Op (List (String × ℕ))
  unfolding leftover_in
  leftover_faults = leftover_in downstream_services

  unfoldable pub reset_circuit_breakers : Op (Unit {0})
  unfolding running_pods for_each
  reset_circuit_breakers = do
    pods ← running_pods "order-service"
    for_each pods (λ pod. lift (c.post_reset pod))

  -- The authorizations of each order, asked of one pod.
  pub payments_at : String → List String → Op (List (String × ℕ))
  payments_at pod [] = pure []
  payments_at pod (order_id ∷ order_ids) = do
    n ← lift (c.get_payment pod order_id)
    rest ← payments_at pod order_ids
    pure ((order_id, n) ∷ rest)

  abbrev pub payments_from : List String → List String → Op (List (String × ℕ))
  payments_from [] order_ids = pure []
  payments_from (pod ∷ pods) order_ids = payments_at pod order_ids

  pub payment_authorizations : List String → Op (List (String × ℕ))
  unfolding ready_pods payments_at
  payment_authorizations order_ids = do
    pods ← ready_pods "payment-service"
    payments_from pods order_ids

  abbrev pub delete_first : String → List String → Op String
  delete_first workload [] = raise (runtime_error "no ready pod to delete")
  delete_first workload (pod ∷ pods) = do
    uid ← lift (c.read_pod_uid pod)
    journal_record (Entry.delete_pod workload pod uid)
    lift (c.delete_pod pod)
    pure pod

  pub delete_pod : String → Op String
  unfolding ready_pods
  delete_pod workload = ready_pods workload >>= delete_first workload

  pub rollout_restart : String → Op (Unit {0})
  rollout_restart workload = do
    journal_record (Entry.rollout_restart workload)
    lift (c.patch_restarted workload)

  unfoldable pub current_replicas : String → Op ℕ
  current_replicas workload = do
    replicas ← lift (c.read_replicas workload)
    pure (get_or replicas 0)

  unfoldable pub scale : String → ℕ → Op ℕ
  unfolding current_replicas
  scale workload replicas = do
    original ← current_replicas workload
    journal_record (Entry.scale workload original replicas)
    lift (c.patch_scale workload replicas)
    pure original

  -- `except ApiException` with status 404
  abbrev pub unless_missing : Result (Unit {0}) → Result (Unit {0})
  unless_missing (raised (api_error status)) =
      if status == 404 then ok tt else raised (api_error status)
  unless_missing r = r

  unfoldable pub restore_replicas : String → ℕ → Op (Unit {0})
  restore_replicas workload replicas w =
      let (r, w') = lift (c.patch_scale workload replicas) w in (unless_missing r, w')

  unfoldable pub wait_rollout_complete : String → Op (Unit {0})
  wait_rollout_complete workload = lift (c.await_rollout workload)
