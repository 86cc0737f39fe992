-- ===== src/TraceChecks/Gaps.antt =====
-- The spans that stand around a gap of the gateway: the filters of `gateway_span_gaps`.
use kubernetes_distributed_t.Common.{
  Bool, List, String, arith, contains, eq_iff, filter, leb, nat_eq, not, option_eq, some, string_eq,
  true, ◌&&◌, ◌==◌, ◌↔◌, ◌≡◌, ◌≤◌,
}
use kubernetes_distributed_t.Common.Dict.{lookup}
use kubernetes_distributed_t.Traces.{
  value_eq, Span, Trace, Value, by_service, is_root, service, span_ids,
}
use kubernetes_distributed_t.TraceChecks.{edge_service, order_service}
use kubernetes_distributed_t.Common.Selected.{
  Some, contains-map_iff, Chosen, filter-filter, filter-Chosen_iff, contains-filter_iff,
}

-- Whether a server span of OrderService hangs below what the gateway did not export: its parent
-- is missing, it carries the request id of the gateway's root, and it does not start before that.
abbrev pub explained_by : Trace → Span → Span → Bool
explained_by trace kong_root span =
    not (contains (span_ids trace.spans) span.parent_span_id)
    && (lookup "kong.request.id" span.attributes == lookup "kong.request.id" kong_root.attributes
        && leb kong_root.start_unix_nano span.start_unix_nano)

-- A client span of the gateway's balancer.
abbrev pub IsBalancer : Span → Type 0
IsBalancer span =
    (service span ≡ "kong-gateway") × (span.kind ≡ "CLIENT") × (span.name ≡ "kong.balancer")

-- A server span of the gateway that has no parent.
abbrev pub IsKongRoot : Span → Type 0
IsKongRoot span =
    (service span ≡ "kong-gateway") × (span.kind ≡ "SERVER") × (span.parent_span_id ≡ "")

-- A server span of OrderService with a parent that is not in the trace, the request id of the
-- gateway's root, and no earlier start.
abbrev pub HangsBelow : (trace : Trace) (kong_root span : Span) → Type 0
HangsBelow trace kong_root span =
    ((service span ≡ "order-service") × (span.kind ≡ "SERVER"))
    × (¬ Some (λ (parent : Span). parent.span_id ≡ span.parent_span_id) trace.spans)
    × (lookup "kong.request.id" span.attributes ≡ lookup "kong.request.id" kong_root.attributes)
    × (kong_root.start_unix_nano ≤ span.start_unix_nano)

explained_by_iff :
    (trace : Trace) (kong_root span : Span)
    → ((service span == order_service && span.kind == "SERVER") && explained_by trace kong_root span
        ≡ true)
      ↔ HangsBelow trace kong_root span
explained_by_iff trace kong_root span = ground (
  arith,
  eq_iff (service span) "order-service",
  eq_iff span.kind "SERVER",
  contains-map_iff (λ (s : Span). s.span_id) trace.spans span.parent_span_id,
  (option_eq {A = Value}).beq_iff (lookup "kong.request.id" span.attributes)
      (lookup "kong.request.id" kong_root.attributes),
)

pub below_iff :
    (trace : Trace) (kong_root : Span) (id : String)
    → (contains
          (span_ids (
            filter (explained_by trace kong_root) (by_service trace order_service (some "SERVER"))))
          id
        ≡ true)
      ↔ Some (λ (other : Span). (other.span_id ≡ id) × HangsBelow trace kong_root other) trace.spans
unfolding by_service
below_iff trace kong_root id =
    rw
      (filter-filter (explained_by trace kong_root)
        (λ (s : Span). service s == order_service && s.kind == "SERVER") trace.spans)
      (contains-filter_iff (λ (s : Span). s.span_id)
        (λ (s : Span).
          (service s == order_service && s.kind == "SERVER") && explained_by trace kong_root s)
        (explained_by_iff trace kong_root) trace.spans id)

pub balancers_iff :
    (trace : Trace) (spans : List Span)
    → (filter (λ span. span.name == "kong.balancer") (by_service trace edge_service (some "CLIENT"))
        ≡ spans)
      ↔ Chosen IsBalancer trace.spans spans
unfolding by_service
balancers_iff trace spans =
    rw
      (filter-filter (λ (s : Span). s.name == "kong.balancer")
        (λ (s : Span). service s == edge_service && s.kind == "CLIENT") trace.spans)
      (filter-Chosen_iff
        (λ (s : Span).
          (service s == edge_service && s.kind == "CLIENT") && s.name == "kong.balancer")
        (λ s. ground (
          arith,
          eq_iff (service s) edge_service,
          eq_iff s.kind "CLIENT",
          eq_iff s.name "kong.balancer",
        ))
        trace.spans spans)

pub kong_roots_iff :
    (trace : Trace) (spans : List Span)
    → (filter is_root (by_service trace edge_service (some "SERVER")) ≡ spans)
      ↔ Chosen IsKongRoot trace.spans spans
unfolding by_service is_root
kong_roots_iff trace spans =
    rw
      (filter-filter is_root (λ (s : Span). service s == edge_service && s.kind == "SERVER")
        trace.spans)
      (filter-Chosen_iff
        (λ (s : Span). (service s == edge_service && s.kind == "SERVER") && s.parent_span_id == "")
        (λ s. ground (
          arith,
          eq_iff (service s) edge_service,
          eq_iff s.kind "SERVER",
          eq_iff s.parent_span_id "",
        ))
        trace.spans spans)
