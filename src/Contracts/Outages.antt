-- ===== src/Contracts/Outages.antt =====
-- The contracts on outages of the collector and of the trace storage.
use Prim.Native.Nat.{max}
use kubernetes_distributed_t.Jaeger
use kubernetes_distributed_t.Prometheus
use kubernetes_distributed_t.Contracts.Pods.{give}
use kubernetes_distributed_t.Contracts.Flows.{check_result, each_stored, parameter, path_result}
use kubernetes_distributed_t.Contracts.{
  Backend, Contract, Finding, Library, all_services, ask, check, common, full_path, has_services,
  never_blocked, none_during, not_delivered, note, queue_full, spans_survived,
  storage_queue_capacity, storage_queue_size, stored_traces, unless,
}
use kubernetes_distributed_t.Workload.{RequestRecord}
use kubernetes_distributed_t.Records.{RunRecord}
use kubernetes_distributed_t.Prometheus.{highest}
use kubernetes_distributed_t.Schema.{ParameterValue}
use kubernetes_distributed_t.TraceChecks.Outcome.{state_path}
use kubernetes_distributed_t.TraceChecks.{order_service}
use kubernetes_distributed_t.Traces.{Trace, services}
use kubernetes_distributed_t.Common.{
  Bool, List, Option, String, [], contains, false, filter, if◌then◌else◌, is_empty, leb, length,
  max, nat_eq, none, not, option_eq, some, string_eq, suc, ℕ, ◌!=◌, ◌&&◌, ◌+◌, ◌-◌, ◌/◌, ◌==◌, ◌∷◌,
}
use kubernetes_distributed_t.Common.Dict.{Dict}
use kubernetes_distributed_t.Common.Exec.{for_each, gets, pure, when, ◌>>=◌, ◌>>◌}
use kubernetes_distributed_t.Common.Texts.{concat}

abbrev pub labelled : RunRecord → (label : String) → List RequestRecord
labelled r label = filter (λ request. request.label == label) r.requests

-- `trace is not None and "order-service" in trace.services`
abbrev pub has_order_spans : Option Trace → Bool
has_order_spans none = false
has_order_spans (some t) = contains (services t) order_service

-- The queue's peak and its capacity; a capacity of 0 is unknown.
abbrev pub queue_findings : (peak capacity : ℕ) → List Finding
queue_findings peak capacity =
    if peak == 0
    then never_blocked ∷ []
    else if capacity != 0 && leb capacity peak
    then queue_full peak capacity ∷ []
    else []

abbrev pub delivered_name : String
delivered_name = "traces from the outage delivered later"

-- `max(a, b - c)`, where the difference may be negative
abbrev pub remaining : (deadline now : ℕ) → ℕ
remaining deadline now = max 10 (deadline - now)

module _ {S : Type 0} (b : Backend S) (r : RunRecord) (library : Library) where
  abbrev pub path_check : Trace → Contract S (Unit {0})
  path_check t = check_result "state events" (path_result (state_path t full_path)) t

  -- How many of the requests have spans of OrderService.
  unfoldable pub survivors : List RequestRecord → Contract S ℕ
  unfolding Jaeger.get_trace services
  survivors [] = pure 0
  survivors (request ∷ rest) = do
    found ← ask (Jaeger.get_trace b.jaeger request.trace_id)
    others ← survivors rest
    pure (if has_order_spans found then suc others else others)

  unfoldable pub collector_outage : Contract S (Unit {0})
  unfolding for_each stored_traces common state_path survivors
  collector_outage = do
    for_each ("before-outage" ∷ "after-recovery" ∷ []) (λ label.
        each_stored b r library (labelled r label) all_services
          (concat ("complete traces " ∷ label ∷ [])) (λ request t. path_check t))
    let during = labelled r "during-outage"
    survived ← survivors during
    check "spans from the outage window are missing"
        (unless (not (is_empty during) && survived == 0) (spans_survived survived (length during)))
        ""

  -- What follows the wait for a request's trace.
  abbrev pub delivered : RequestRecord → Option Trace → Contract S (Unit {0})
  delivered request none = check delivered_name (not_delivered ∷ []) request.trace_id
  delivered request (some t) =
      if has_services all_services t
      then (check delivered_name [] t.trace_id >> (common b r library request t >> path_check t))
      else check delivered_name (not_delivered ∷ []) request.trace_id

  -- The clock counts whole seconds; `timeout` is in thousandths of one.
  abbrev pub await_delivery : (deadline : ℕ) → RequestRecord → Contract S (Unit {0})
  await_delivery deadline request = do
    now ← gets (λ w. b.jaeger.clock w.outside)
    found ← ask (
        Jaeger.wait_for_trace b.jaeger request.trace_id (remaining deadline now)
          (has_services all_services))
    delivered request found

  abbrev pub queue_check : (peak capacity : ℕ) → Contract S (Unit {0})
  queue_check peak capacity = do
    check "writes waited in a bounded queue while the storage was down"
        (queue_findings peak capacity) ""
    when (is_empty (queue_findings peak capacity)) (
        note "storage queue peak"
          (concat (library.str peak ∷ " of " ∷ library.str capacity ∷ " batches" ∷ [])))

  unfoldable pub trace_storage_outage : Dict String ParameterValue → Contract S (Unit {0})
  unfolding for_each common state_path Prometheus.max_over Prometheus.query Jaeger.wait_for_trace
      services
  trace_storage_outage parameters = do
    let during = labelled r "during-outage"
    when (is_empty during) (check delivered_name (none_during ∷ []) "")
    timeout ← give (parameter library parameters "deliveryTimeoutSeconds" 180_000)
    started ← gets (λ w. b.jaeger.clock w.outside)
    for_each during (await_delivery (started + timeout / 1000))
    now ← gets (λ w. b.wall w.outside)
    peak ← ask (
        Prometheus.max_over b.prometheus library.str storage_queue_size
          ((now + 180) - r.workload_started_at))
    samples ← ask (Prometheus.query b.prometheus storage_queue_capacity)
    queue_check peak (highest samples)
