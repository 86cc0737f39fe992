-- ===== src/TraceChecks/Tests.antt =====
-- An order that is rejected by the fraud check, as a trace.
use kubernetes_distributed_t.Common.{
  All, List, String, [], false, nat_eq, option_eq, refl, some, string_eq, true, ℕ, ◌↔◌, ◌∷◌, ◌≡◌,
}
use kubernetes_distributed_t.Common.Sort.{sort_by, insert_sorted}
use kubernetes_distributed_t.Traces.{
  Span, Trace, Value, by_service, children_of, group_traces, integer, is_root, named, overlaps,
  parent_of, service, services, starts_by, text,
}
use kubernetes_distributed_t.Traces.Groups.{group_traces_lem, spans_in, spans_of}
use kubernetes_distributed_t.TraceChecks.{
  edge_eq, edges_from, last_end, named_any, service_edges, single, stage_order, topology,
  transaction,
}
use kubernetes_distributed_t.Common.Exec.{ok}
use kubernetes_distributed_t.TraceChecks.Structure.{topology_iff, CallsAllowed}
use kubernetes_distributed_t.TraceChecks.Integrity.{
  Placed, failed_upstream, gateway_span_gaps, integrity, integrity_iff,
}
use kubernetes_distributed_t.TraceChecks.Order.{InOrder, stage_order_iff}
use kubernetes_distributed_t.TraceChecks.Outcome.{
  Walked, error_marking, error_marking_iff, state_path, state_path_iff,
}
use kubernetes_distributed_t.TraceChecks.Attempts.{Tried, attempts_of, retries, retries_iff}
use kubernetes_distributed_t.TraceChecks.Latency.{
  latency_dominance, Dominates, latency_dominance-ok,
}
use kubernetes_distributed_t.Workload.{RequestRecord}
use kubernetes_distributed_t.TraceChecks.Content.{correlation}
use kubernetes_distributed_t.TraceChecks.Carried.{Correlated, correlation_iff}
use kubernetes_distributed_t.Common.Selected.{Chosen, Some}
use kubernetes_distributed_t.TraceChecks.Once.{Once}

abbrev span : (id parent service name kind : String) (start end : ℕ) → Span
span id parent service name kind start end = record {
  trace_id = "t1";
  span_id = id;
  parent_span_id = parent;
  name = name;
  kind = kind;
  start_unix_nano = start;
  end_unix_nano = end;
  status = "UNSET";
  attributes = ("retry.attempt", integer 1) ∷ ("order.state", text "FraudRejected") ∷ [];
  events =
      record {
        name = "order.state_changed";
        time_unix_nano = start;
        attributes = ("order.state.to", text "FraudRejected") ∷ [];
      }
      ∷ [];
  resource = ("service.name", text service) ∷ [];
}

abbrev all_spans : List Span
all_spans =
    span "1" "" "kong-gateway" "POST /orders" "SERVER" 0 100
    ∷ span "2" "1" "order-service" "POST /orders" "SERVER" 5 95
    ∷ span "3" "2" "order-service" "order.transaction" "INTERNAL" 6 90
    ∷ span "4" "3" "order-service" "inventory.reserve" "INTERNAL" 10 40
    ∷ span "5" "3" "order-service" "fraud.evaluate" "INTERNAL" 11 35
    ∷ span "6" "5" "order-service" "POST /evaluations" "CLIENT" 12 34
    ∷ span "7" "6" "fraud-service" "POST /evaluations" "SERVER" 13 33
    ∷ span "8" "3" "order-service" "compensation.inventory.release" "INTERNAL" 45 60
    ∷ []

abbrev rejected : Trace
rejected = record { trace_id = "t1"; spans = all_spans }

abbrev to_zero : Value → ℕ
to_zero v = 0

order_pass : stage_order rejected ≡ []
unfolding stage_order single named overlaps last_end named_any
order_pass = refl

retries_pass : retries rejected "fraud.evaluate" 1 ≡ []
unfolding retries single named attempts_of sort_by insert_sorted children_of
retries_pass = refl

whole_pass : integrity to_zero rejected ≡ []
unfolding integrity gateway_span_gaps failed_upstream by_service is_root service
whole_pass = refl

topology_pass : topology rejected ("fraud-service" ∷ []) ("payment-service" ∷ []) ≡ []
unfolding topology service_edges edges_from services parent_of service
topology_pass = refl

stage_order_iff_example :
    (stage_order rejected ≡ [])
    ↔ ((inventory : Span) × (fraud : Span) × InOrder rejected inventory fraud)
stage_order_iff_example = stage_order_iff rejected

integrity_iff_example : (integrity to_zero rejected ≡ []) ↔ (
    All (Placed to_zero rejected) all_spans
    × ((root : Span) × Chosen (λ (span : Span). span.parent_span_id ≡ "") all_spans (root ∷ [])
        × (service root ≡ "kong-gateway")))
integrity_iff_example = integrity_iff to_zero rejected

topology_iff_example : (topology rejected ("fraud-service" ∷ []) ("payment-service" ∷ []) ≡ []) ↔ (
    All (λ name. Some (λ (span : Span). service span ≡ name) all_spans) ("fraud-service" ∷ [])
    × All (λ name. ¬ Some (λ (span : Span). service span ≡ name) all_spans) ("payment-service" ∷ [])
    × All (CallsAllowed all_spans) all_spans)
topology_iff_example = topology_iff rejected ("fraud-service" ∷ []) ("payment-service" ∷ [])

retries_iff_example :
    (retries rejected "fraud.evaluate" 1 ≡ [])
    ↔ ((stage : Span) × Once rejected "fraud.evaluate" stage × Tried rejected stage 1)
retries_iff_example = retries_iff rejected "fraud.evaluate" 1

error_marking_iff_example :
    (error_marking rejected false ≡ [])
    ↔ ((tx : Span) × (transaction rejected ≡ some tx) × ((tx.status ≡ "ERROR") ↔ (false ≡ true)))
error_marking_iff_example = error_marking_iff rejected false

state_path_iff_example : (state_path rejected ("FraudRejected" ∷ []) ≡ some []) ↔ (
    (tx : Span) × Once rejected "order.transaction" tx
    × Walked tx ("FraudRejected" ∷ []) "FraudRejected")
state_path_iff_example = state_path_iff rejected ("FraudRejected" ∷ []) "FraudRejected" refl

group_traces_lem_example :
    spans_in (group_traces all_spans) "t1" ≡ sort_by starts_by (spans_of "t1" all_spans)
group_traces_lem_example = group_traces_lem all_spans "t1"

-- A third of the transaction went into the reservation, the longest of its steps.
reserve_dominates : latency_dominance rejected "inventory.reserve" 300 0 ≡ ok []
unfolding latency_dominance
reserve_dominates = refl

latency_dominance-ok_example :
    (tx : Span) × (stage : Span) × (transaction rejected ≡ some tx)
    × (single rejected "inventory.reserve" ≡ some stage)
    × Dominates rejected tx stage 300 0
latency_dominance-ok_example =
    latency_dominance-ok rejected "inventory.reserve" 300 0 reserve_dominates

abbrev unknown_request : RequestRecord
unknown_request = record {
  step = 0;
  sequence = 0;
  label = "";
  planned_offset = record { base = 0; index = 0; rate = 1 };
  started_at = 0;
  duration = 0;
  status = 422;
  correlation_id = "c1";
  kong_request_id = "";
  trace_id = "t1";
  order_id = "";
  state = "";
  error = "";
}

correlation_iff_example : (correlation rejected unknown_request "run-1" ≡ []) ↔ (
    (server : Span) × (rest : List Span) × (by_service rejected "order-service" (some "SERVER")
      ≡ server ∷ rest)
    × Correlated rejected server unknown_request "run-1")
correlation_iff_example = correlation_iff rejected unknown_request "run-1"
