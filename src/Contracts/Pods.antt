-- ===== src/Contracts/Pods.antt =====
-- The contracts on which pods served the requests, from the traces of the run that were kept.
use mathlib.Core.Option
use kubernetes_distributed_t.Jaeger
use kubernetes_distributed_t.Contracts.Flows.{parameter}
use kubernetes_distributed_t.Contracts.{
  Backend, Contract, Finding, Library, ask, check, common, deleted_pod_unseen, error_spans,
  first_not_replaced, is_delta, last_replaced, metric_delta, metrics_settle_seconds, no_comparison,
  no_fast_span, no_late_spans, no_replacement, no_slow_span, requests, slow_elsewhere,
  stored_traces, unless, unready_served,
}
use kubernetes_distributed_t.Schema.{mode_name, ParameterValue, delete_pod, rollout_restart}
use kubernetes_distributed_t.Workload.{RequestRecord, replaced}
use kubernetes_distributed_t.Records.{RunRecord, FaultRecord}
use kubernetes_distributed_t.Engine.{KubernetesEvent}
use kubernetes_distributed_t.TraceChecks.{minus}
use kubernetes_distributed_t.Traces.{value_eq}
use kubernetes_distributed_t.Traces.{Span, Trace, Value, by_service, starts_by, text}
use kubernetes_distributed_t.Common.{
  Bool, List, Option, String, [], all, any, contains, false, filter, if◌then◌else◌, is_empty, last,
  leb, ltb, map, nat_eq, none, not, option_eq, some, string_eq, true, ℕ, ◌!=◌, ◌&&◌, ◌*◌, ◌++◌, ◌+◌,
  ◌-◌, ◌==◌, ◌∷◌,
}
use kubernetes_distributed_t.Common.Dict.{Dict, lookup}
use kubernetes_distributed_t.Common.Exec.{
  Result, for_each, index_error, ok, pure, raised, ◌>>=◌, ◌>>◌,
}
use kubernetes_distributed_t.Common.Sort.{sort_by}

abbrev pub is_delete : KubernetesEvent → Bool
is_delete e = elim e.action [ delete_pod ↦ true | _ ↦ false ]

abbrev pub is_restart : KubernetesEvent → Bool
is_restart e = elim e.action [ rollout_restart ↦ true | _ ↦ false ]

abbrev pub as_value : String → Option Value
as_value s = some (text s)

-- The pod of the first deletion, and the pods before the first restart.
abbrev pub deleted_pod : List KubernetesEvent → Option Value
deleted_pod [] = none
deleted_pod (e ∷ events) =
    let rest = deleted_pod events in if is_delete e then Option.map text e.pod else rest

abbrev pub replaced_pods : List KubernetesEvent → List String
replaced_pods [] = []
replaced_pods (e ∷ events) =
    let rest = replaced_pods events in if is_restart e then e.pods_before else rest

-- `pods[0]`
abbrev pub first_pod : List String → Result (Option Value)
first_pod [] = raised (index_error "list index out of range")
first_pod (pod ∷ _) = ok (as_value pod)

-- The first pod of the first fault of a mode.
abbrev pub pod_of_fault : (mode : String) → List FaultRecord → Result (Option Value)
pod_of_fault mode [] = ok none
pod_of_fault mode (f ∷ faults) =
    let rest = pod_of_fault mode faults in
    if mode_name f.mode == mode then first_pod f.pods else rest

abbrev pub pod_name : Span → Option Value
pod_name span = lookup "k8s.pod.name" span.resource

-- What a service answered in the traces.
abbrev pub served : (service_name : String) → List Trace → List Span
served service_name [] = []
served service_name (t ∷ traces) =
    by_service t service_name (some "SERVER") ++ served service_name traces

abbrev pub is_of_run : (run_id : String) → Trace → Bool
is_of_run run_id t =
    any (λ span. lookup "scenario.run_id" span.attributes == some (text run_id)) t.spans

abbrev pub deletion_findings : Option Value → (pods : List (Option Value)) → List Finding
deletion_findings deleted pods =
    unless (contains pods deleted) (deleted_pod_unseen deleted)
    ++ unless (not (is_empty (filter (λ pod. pod != deleted) pods))) no_replacement

abbrev pub last_findings : List (Option Value) → Option (Option Value) → List Finding
last_findings replaced none = []
last_findings replaced (some pod) = unless (not (contains replaced pod)) (last_replaced pod)

-- The pods that served, in the order of their answers, against those that were replaced.
abbrev pub restart_findings : (pods replaced : List (Option Value)) → List Finding
restart_findings [] replaced = no_comparison ∷ []
restart_findings pods [] = no_comparison ∷ []
restart_findings (pod ∷ pods) (old ∷ replaced) =
    unless (contains (old ∷ replaced) pod) (first_not_replaced pod)
    ++ last_findings (old ∷ replaced) (last (pod ∷ pods))

-- `cutoff` is in thousandths of a second.
abbrev pub is_late : (cutoff : ℕ) → Span → Bool
is_late cutoff span = ltb (1_000_000 * cutoff) span.start_unix_nano

abbrev pub readiness_findings :
    (unready : Option Value) → (late : List (Option Value)) → List Finding
readiness_findings unready [] = no_late_spans ∷ []
readiness_findings (some (text pod)) late =
    unless (not (pod != "" && contains late (as_value pod))) (unready_served pod)
readiness_findings unready late = []

-- `threshold` is in thousandths of a millisecond.
abbrev pub is_slow : (threshold : ℕ) → Span → Bool
is_slow threshold span = leb (span.start_unix_nano + 1000 * threshold) span.end_unix_nano

abbrev pub slow_findings : (degraded : Option Value) (slow : List (Option Value)) → List Finding
slow_findings degraded [] = no_slow_span ∷ []
slow_findings degraded slow = unless (all (λ pod. pod == degraded) slow) slow_elsewhere

abbrev pub degradation_findings :
    (degraded : Option Value) (threshold : ℕ) → List Span → List Finding
degradation_findings degraded threshold spans =
    let slow = map pod_name (filter (is_slow threshold) spans) in
    let fast = map pod_name (filter (λ span. not (is_slow threshold span)) spans) in
    slow_findings degraded slow ++ unless (not (is_empty (minus fast slow))) no_fast_span

-- `status in {503, 504}`
abbrev pub unavailable : RequestRecord → Bool
unavailable request = contains (503 ∷ 504 ∷ []) request.status

-- A result as a statement.
abbrev pub give : {S A : Type 0} → Result A → Contract S A
give r w = (r, w)

module _ {S : Type 0} (b : Backend S) (r : RunRecord) (library : Library) where
  -- `_retained_by_window`
  unfoldable pub retained_by_window : (service_name : String) → Contract S (List Trace)
  unfolding Jaeger.find_traces
  retained_by_window service_name = do
    found ← ask (
        Jaeger.find_traces b.jaeger (record {
          service = service_name;
          start = r.workload_started_at - 5;
          end = r.workload_finished_at + 60;
          attributes = ("scenario.run_id", r.run_id) ∷ [];
          limit = 1000;
        }))
    pure (filter (is_of_run r.run_id) found)

  unfoldable pub pod_deletion : Contract S (Unit {0})
  unfolding retained_by_window by_service stored_traces for_each common requests
  pod_deletion = do
    traces ← retained_by_window "payment-service"
    let pods = map pod_name (served "payment-service" traces)
    check "workload attribution" (deletion_findings (deleted_pod r.kubernetes_events) pods) ""
    found ←
        stored_traces b r (filter unavailable (requests r none)) ("order-service" ∷ [])
          "failure traces kept"
    for_each found (λ entry. common b r library entry.0 entry.1)

  -- `_no_new_errors`
  unfoldable pub no_new_errors : (name : String) → Contract S (Unit {0})
  unfolding metric_delta
  no_new_errors name = do
    (λ w. (ok tt, record w { outside = b.jaeger.sleep metrics_settle_seconds w.outside }))
    errors ← metric_delta b r "order_errors"
    check name (unless (is_delta errors 0) (error_spans errors)) ""

  unfoldable pub rolling_restart : Contract S (Unit {0})
  unfolding no_new_errors retained_by_window by_service sort_by
  rolling_restart = do
    no_new_errors "no errors during the rollout"
    traces ← retained_by_window "fraud-service"
    let pods = map pod_name (sort_by starts_by (served "fraud-service" traces))
    check "traffic moved from replaced to new pods"
        (restart_findings pods (map as_value (replaced_pods r.kubernetes_events))) ""

  unfoldable pub readiness_loss : Dict String ParameterValue → Contract S (Unit {0})
  unfolding no_new_errors retained_by_window by_service
  readiness_loss parameters = do
    no_new_errors "no errors while a replica was unready"
    unready ← give (pod_of_fault "readiness-loss" r.faults)
    lifetime ← give (parameter library parameters "connectionLifetimeSeconds" 35_000)
    traces ← retained_by_window "fraud-service"
    let late =
        filter (is_late (1000 * r.workload_started_at + lifetime)) (served "fraud-service" traces)
    check "unready replica removed from traffic" (readiness_findings unready (map pod_name late)) ""

  unfoldable pub replica_degradation : Dict String ParameterValue → Contract S (Unit {0})
  unfolding retained_by_window by_service
  replica_degradation parameters = do
    threshold ← give (parameter library parameters "slowSpanMs" 900_000)
    degraded ← give (pod_of_fault "latency" r.faults)
    traces ← retained_by_window "fraud-service"
    check "latency attributed to one replica"
        (degradation_findings degraded threshold (served "fraud-service" traces)) ""
