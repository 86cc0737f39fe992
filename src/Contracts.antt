-- ===== src/Contracts.antt =====
-- The telemetry contracts (automation/src/txplatform/scenarios/contracts.py): the context that
-- collects findings, and the queries and waits that the contracts share. A contract is a statement
-- on what was found so far and on the environment. Times are seconds, counters natural numbers.
pub mod Flows
pub mod Pods
pub mod Counters
pub mod Outages
pub mod Verify
pub mod Logic
pub mod Orders
pub mod Passed
pub mod Snapshots
pub mod Verdicts
mod Tests
use mathlib.Core.Option.{get_or}
use kubernetes_distributed_t.Workload.{RequestRecord}
use kubernetes_distributed_t.Records.{RunRecord}
use kubernetes_distributed_t.TraceChecks.Content.{
  correlation, dotnet_services, kubernetes_metadata, sensitive_data,
}
use kubernetes_distributed_t.TraceChecks.Integrity.{gateway_span_gaps, integrity}
use kubernetes_distributed_t.TraceChecks.{Problem, edge_service}
use kubernetes_distributed_t.Traces.{Trace, Value, services}
use kubernetes_distributed_t.Common.{
  Bool, List, Option, String, [], all, contains, filter, if◌then◌else◌, is_empty, ltb, map, nat_eq,
  none, not, option_eq, some, string_eq, suc, zero, ℕ, ◌&&◌, ◌++◌, ◌+◌, ◌==◌, ◌∷◌,
}
use kubernetes_distributed_t.Common.Dict.{Dict, lookup}
use kubernetes_distributed_t.Common.Exec.{
  Exec, Result, key_error, ok, pure, raise, when, ◌>>=◌, ◌>>◌,
}
use kubernetes_distributed_t.Common.Texts.{concat}
use kubernetes_distributed_t.Jaeger
use kubernetes_distributed_t.Prometheus

abbrev pub decision_delay_seconds : ℕ
decision_delay_seconds = 35

abbrev pub metrics_settle_seconds : ℕ
metrics_settle_seconds = 45

abbrev pub all_services : List String
all_services = edge_service ∷ dotnet_services

abbrev pub full_path : List String
full_path = "InventoryReserved" ∷ "PaymentAuthorized" ∷ "ShipmentCreated" ∷ "Completed" ∷ []

-- How a counter changed. It may have gone back, so the difference is not taken.
pub record Delta : Type 0 where
  pub before : ℕ
  pub after : ℕ

-- `delta == n` and `delta < n`
abbrev pub is_delta : Delta → ℕ → Bool
is_delta d n = d.after == d.before + n

abbrev pub below : Delta → ℕ → Bool
below d n = ltb d.after (d.before + n)

-- A problem of a contract: one of a check on a trace, or one of its own.
pub data Finding : Type 0 where
  in_trace : Problem → Finding
  not_stored none_failed not_a_timeout shipping_seen no_replacement no_comparison : Finding
  none_ended : (status : ℕ) → Finding
  deleted_pod_unseen : Option Value → Finding
  error_spans : Delta → Finding
  first_not_replaced last_replaced : Option Value → Finding
  no_late_spans no_slow_span slow_elsewhere no_fast_span : Finding
  unready_served : (pod : String) → Finding
  spans_survived : (survived sent : ℕ) → Finding
  none_during not_delivered never_blocked : Finding
  queue_full : (peak capacity : ℕ) → Finding
  wrong_count passed_through : Delta → ℕ → Finding
  beyond_kong : List String → Finding
  dependency_called : Delta → Finding
  dropped_spans : (dropped refused : Delta) → Finding
  no_points : (status : ℕ) → Finding

-- What a contract has found: each finding with the subject it is about, which may be empty.
pub record Context : Type 0 where
  pub problems : Dict String (List (String × Finding))
  pub subjects : Dict String (List String)
  pub notes : Dict String (List String)

abbrev pub no_findings : Context
no_findings = record { problems = []; subjects = []; notes = [] }

-- `d.setdefault(name, []).extend(found)`
abbrev pub extend : {A : Type 0} → String → List A → Dict String (List A) → Dict String (List A)
extend name found [] = (name, found) ∷ []
extend name found ((k, old) ∷ d) =
    if k == name then (k, old ++ found) ∷ d else (k, old) ∷ extend name found d

-- `Context.check`, on the findings
unfoldable pub checked : (name : String) → List Finding → (subject : String) → Context → Context
checked name found subject c = record c {
  problems = extend name (map (λ p. (subject, p)) found) c.problems;
  subjects = if subject == "" then c.subjects else extend name (subject ∷ []) c.subjects;
}

unfoldable pub noted : (name subject : String) → Context → Context
noted name subject c = record c { notes = extend name (subject ∷ []) c.notes }

-- What the contracts ask of the cluster: Jaeger, Prometheus, the clock on the wall, and the
-- Monitor API, which answers its status and how many points it has.
pub record Backend (S : Type 0) : Type 0 where
  pub jaeger : Jaeger.Api S
  pub prometheus : String → Exec S Prometheus.Payload
  pub wall : S → ℕ
  pub call_rate : (now : ℕ) → Exec S (ℕ × ℕ)

-- The findings so far and the environment.
pub record State (S : Type 0) : Type 0 where
  pub context : Context
  pub outside : S

-- A statement of a contract.
abbrev pub Contract : (S A : Type 0) → Type 0
Contract S A = Exec (State S) A

abbrev pub with_context : {S A : Type 0} → Context → Result A × S → Result A × State S
with_context c (r, s) = (r, record { context = c; outside = s })

-- A call that leaves the findings alone.
abbrev pub ask : {S A : Type 0} → Exec S A → Contract S A
ask m w = with_context w.context (m w.outside)

abbrev pub check :
    {S : Type 0} → (name : String) → List Finding → (subject : String) → Contract S (Unit {0})
check name found subject w = (ok tt, record w { context = checked name found subject w.context })

abbrev pub note : {S : Type 0} → (name subject : String) → Contract S (Unit {0})
note name subject w = (ok tt, record w { context = noted name subject w.context })

-- The problems of a check on a trace.
abbrev pub check_trace :
    {S : Type 0} → (name : String) → List Problem → Trace → Contract S (Unit {0})
check_trace name problems trace = check name (map in_trace problems) trace.trace_id

-- `[] if test else [finding]`
abbrev pub unless : Bool → Finding → List Finding
unless b finding = if b then [] else finding ∷ []

unfoldable pub requests : RunRecord → Option ℕ → List RequestRecord
requests r none = r.requests
requests r (some status) = filter (λ request. request.status == status) r.requests

-- `required <= t.services`
abbrev pub has_services : List String → Trace → Bool
has_services required t = all (contains (services t)) required

-- What is used of Python's library: `int` on a value that is no number, `json.dumps` on the
-- attributes of a trace, a number's text, and `float` on a text, in thousandths.
pub record Library : Type 0 where
  pub int : Value → ℕ
  pub dumps : Trace → String
  pub str : ℕ → String
  pub float : String → Result ℕ

-- `_calls`
abbrev pub calls : Dict String String → String
calls labels = Prometheus.metric_selector "traces_span_metrics_calls" labels

-- The labels of OrderService's metrics.
abbrev pub order_server : Dict String String → Dict String String
order_server more = ("service_name", "order-service") ∷ more

abbrev pub posts : Dict String String → Dict String String
posts more = order_server (("span_name", "POST /orders") ∷ ("span_kind", "SPAN_KIND_SERVER") ∷ more)

abbrev pub kong_answers : (status : String) → Dict String String
kong_answers status =
    ("service_name", "kong-gateway")
    ∷ ("span_name", "kong")
    ∷ ("http_response_status_code", status)
    ∷ []

-- METRICS
abbrev pub metrics : Dict String String
metrics =
    ("kong_429", calls (kong_answers "429"))
    ∷ ("kong_413", calls (kong_answers "413"))
    ∷ ("order_posts", calls (posts []))
    ∷ ("order_401", calls (posts (("http_response_status_code", "401") ∷ [])))
    ∷ ("order_403", calls (posts (("http_response_status_code", "403") ∷ [])))
    ∷ (
      "order_errors",
      calls (
          order_server
            (("span_kind", "SPAN_KIND_SERVER") ∷ ("status_code", "STATUS_CODE_ERROR") ∷ [])),
    )
    ∷ (
      "inventory_calls",
      calls (("service_name", "inventory-service") ∷ ("span_kind", "SPAN_KIND_SERVER") ∷ []),
    )
    ∷ (
      "dropped_too_early",
      Prometheus.metric_selector "otelcol_processor_tail_sampling_sampling_trace_dropped_too_early"
          [],
    )
    ∷ ("refused_spans", Prometheus.metric_selector "otelcol_receiver_refused_spans" [])
    ∷ []

abbrev pub exporter_labels : Dict String String
exporter_labels = ("exporter", "jaeger_storage_exporter") ∷ []

-- STORAGE_QUEUE_SIZE and STORAGE_QUEUE_CAPACITY
abbrev pub storage_queue_size : String
storage_queue_size = Prometheus.metric_selector "otelcol_exporter_queue_size" exporter_labels

abbrev pub storage_queue_capacity : String
storage_queue_capacity =
    Prometheus.metric_selector "otelcol_exporter_queue_capacity" exporter_labels

-- `prom.total(METRICS[key])`
abbrev pub total_of : {S : Type 0} → Backend S → Option String → Exec S ℕ
total_of b none = raise (key_error "METRICS")
total_of b (some e) = Prometheus.total b.prometheus e

abbrev pub kong_gap_note : String
kong_gap_note = "gateway span gap (known Kong 3.9 limitation)"

-- `a or b`, on texts
abbrev pub or_text : String → String → String
or_text a b = if a == "" then b else a

module _ {S : Type 0} (b : Backend S) (r : RunRecord) where
  -- Context.trace
  unfoldable pub trace : RequestRecord → (required : List String) → Contract S (Option Trace)
  unfolding Jaeger.wait_for_trace services
  trace request required =
      if request.trace_id == ""
      then pure none
      else ask (Jaeger.wait_for_trace b.jaeger request.trace_id 60 (has_services required))

  unfoldable pub metric_delta : (key : String) → Contract S Delta
  unfolding Prometheus.total
  metric_delta key = do
    after ← ask (total_of b (lookup key metrics))
    pure (record { before = get_or (lookup key r.metrics_before) 0; after = after })

  -- The loop of `wait_metric_delta`; the fuel lasts as long as the timeout.
  unfoldable pub await_delta :
      (key : String) (expected deadline fuel : ℕ) → Delta → Contract S Delta
  unfolding metric_delta
  await_delta key expected deadline zero delta w = (ok delta, w)
  await_delta key expected deadline (suc fuel) delta w =
      let later = record w { outside = b.jaeger.sleep 5 w.outside } in
      let next = (metric_delta key >>= await_delta key expected deadline fuel) later in
      if below delta expected && ltb (b.jaeger.clock w.outside) deadline
      then next
      else (ok delta, w)

  unfoldable pub wait_metric_delta : (key : String) (expected timeout : ℕ) → Contract S Delta
  unfolding metric_delta await_delta
  wait_metric_delta key expected timeout w =
      let deadline = b.jaeger.clock w.outside + timeout in
      (metric_delta key >>= await_delta key expected deadline timeout) w

  -- What `_stored_traces` does with what it found for a request.
  abbrev pub keep_stored :
      (required : List String) (check_name : String)
      → RequestRecord
      → Option Trace
      → Contract S (List (RequestRecord × Trace))
  keep_stored required check_name request none =
      check check_name (not_stored ∷ []) (or_text request.trace_id request.correlation_id)
      >> pure []
  keep_stored required check_name request (some t) =
      if has_services required t
      then pure ((request, t) ∷ [])
      else (check check_name (not_stored ∷ []) (or_text request.trace_id request.correlation_id)
          >> pure [])

  unfoldable pub stored_traces :
      List RequestRecord
      → (required : List String) (check_name : String) → Contract S (List (RequestRecord × Trace))
  unfolding trace services
  stored_traces [] required check_name = pure []
  stored_traces (request ∷ rest) required check_name = do
    found ← trace request required
    kept ← keep_stored required check_name request found
    others ← stored_traces rest required check_name
    pure (kept ++ others)

  -- `_common`
  unfoldable pub common : Library → RequestRecord → Trace → Contract S (Unit {0})
  unfolding integrity gateway_span_gaps kubernetes_metadata correlation sensitive_data
  common library request t = do
    check_trace "trace integrity" (integrity library.int t) t
    when (not (is_empty (gateway_span_gaps library.int t))) (note kong_gap_note t.trace_id)
    check_trace "kubernetes metadata" (kubernetes_metadata t) t
    check_trace "correlation" (correlation t request r.run_id) t
    check_trace "sensitive data"
        (sensitive_data library.dumps t (concat ("canary-" ∷ r.run_id ∷ []) ∷ [])) t
