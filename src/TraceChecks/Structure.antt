-- ===== src/TraceChecks/Structure.antt =====
-- The services and stages of a trace.
use kubernetes_distributed_t.Common.{
  append_nil_iff, All, Eq, List, String, [], arith, contains, false, filter, nat_eq, option_eq,
  string_eq, true, ◌++◌, ◌↔◌, ◌∷◌, ◌≡◌, eq_iff, Option, ◌⊎◌, ◌==◌, some, append-All, Bool-cases,
  All-append, ◌≢◌, inl, subst, inr, none, refl,
}
use kubernetes_distributed_t.Traces.{Trace, services, Span, service, first, parent_of}
use kubernetes_distributed_t.TraceChecks.{
  edge_eq, Problem, allowed_edges, forbidden_services, minus, missing_services, outside_topology,
  service_edges, topology, unless_none, edges_from, edge_of,
}
use kubernetes_distributed_t.Common.Selected.{Some, contains-map_iff}

module _ {A : Type 0} ⦃e : Eq A⦄ where
  minus_iff :
      (left right : List A) → (minus left right ≡ []) ↔ All (λ x. contains right x ≡ true) left
  minus_iff [] right = ground arith
  minus_iff (x ∷ left) right = ground (arith, minus_iff left right)

  none_of_iff :
      (xs ys : List A) → (filter (contains xs) ys ≡ []) ↔ All (λ y. contains xs y ≡ false) ys
  none_of_iff xs [] = ground arith
  none_of_iff xs (y ∷ ys) = ground (arith, none_of_iff xs ys)

pub unless_none_iff :
    {A : Type 0} (xs : List A) (p : List A → Problem) → (unless_none xs p ≡ []) ↔ (xs ≡ [])
unless_none_iff [] p = ground arith
unless_none_iff (x ∷ xs) p = ground arith

-- The calls between services that the platform has: of the gateway to OrderService, and of
-- OrderService to the four services below it.
abbrev pub Allowed : (caller called : String) → Type 0
Allowed caller called =
    (caller ≡ "kong-gateway") × (called ≡ "order-service")
    ⊎ (caller ≡ "order-service")
      × ((called ≡ "inventory-service")
          ⊎ ((called ≡ "fraud-service")
              ⊎ ((called ≡ "payment-service") ⊎ (called ≡ "shipping-service"))))

-- A span whose parent, the first span that has its parent's id, is of another service is an
-- allowed call of that service.
abbrev pub CallsAllowed : List Span → Span → Type 0
CallsAllowed spans span =
    (parent : Span)
    → first (λ candidate. candidate.span_id == span.parent_span_id) spans ≡ some parent
    → service parent ≢ service span
    → Allowed (service parent) (service span)

edge-Allowed_iff :
    (caller called : String)
    → (contains allowed_edges (caller, called) ≡ true) ↔ Allowed caller called
edge-Allowed_iff caller called = ground (
  arith,
  eq_iff "kong-gateway" caller,
  eq_iff "order-service" called,
  eq_iff "order-service" caller,
  eq_iff "inventory-service" called,
  eq_iff "fraud-service" called,
  eq_iff "payment-service" called,
  eq_iff "shipping-service" called,
)

edge_of_iff :
    (o : Option Span) (span : Span)
    → All (λ edge. contains allowed_edges edge ≡ true) (edge_of o span) ↔ (
        (parent : Span)
        → o ≡ some parent
        → service parent ≢ service span
        → Allowed (service parent) (service span))
edge_of_iff none span = (λ h parent e. absurd (cc), λ h. tt)
edge_of_iff (some parent) span = elim (Bool-cases (service parent == service span)) [
  | inl same ↦ rw same (
    λ h other e differ. absurd (
        differ (
          subst (λ (x : Span). service x ≡ service span) (ground arith)
            ((eq_iff (service parent) (service span)).0 same))),
    λ h. tt,
  )
  | inr differ ↦ rw differ (
    λ h other e apart.
        subst (λ (x : Span). Allowed (service x) (service span)) (ground arith)
          ((edge-Allowed_iff (service parent) (service span)).0 h.0),
    λ h. (
      (edge-Allowed_iff (service parent) (service span)).1
          (h parent refl (λ same. absurd (ground (arith, eq_iff (service parent) (service span))))),
      tt,
    ),
  )
]

edges_iff :
    (trace : Trace) (spans : List Span)
    → All (λ edge. contains allowed_edges edge ≡ true) (edges_from trace spans)
      ↔ All (CallsAllowed trace.spans) spans
unfolding edges_from parent_of
edges_iff trace [] = (λ h. tt, λ h. tt)
edges_iff trace (span ∷ spans) =
    let Fine = λ (edge : String × String). contains allowed_edges edge ≡ true in
    let here = edge_of_iff (parent_of trace span) span in
    let rest = edges_iff trace spans in
    (
      λ h.
          let (left, right) =
            append-All Fine (edge_of (parent_of trace span) span) (edges_from trace spans) h in
          (here.0 left, rest.0 right),
      λ h.
          All-append Fine (edge_of (parent_of trace span) span) (edges_from trace spans)
            (here.1 h.0) (rest.1 h.1),
    )

service_edges_iff :
    (trace : Trace)
    → All (λ edge. contains allowed_edges edge ≡ true) (service_edges trace)
      ↔ All (CallsAllowed trace.spans) trace.spans
unfolding service_edges
service_edges_iff trace = edges_iff trace trace.spans

services_iff :
    (trace : Trace) (name : String)
    → (contains (services trace) name ≡ true)
      ↔ Some (λ (span : Span). service span ≡ name) trace.spans
unfolding services
services_iff trace name = contains-map_iff service trace.spans name

required_iff :
    (trace : Trace) (names : List String)
    → All (λ name. contains (services trace) name ≡ true) names
      ↔ All (λ name. Some (λ (span : Span). service span ≡ name) trace.spans) names
required_iff trace [] = (λ h. tt, λ h. tt)
required_iff trace (name ∷ names) =
    let here = services_iff trace name in
    let rest = required_iff trace names in
    (λ h. (here.0 h.0, rest.0 h.1), λ h. (here.1 h.0, rest.1 h.1))

forbidden_iff :
    (trace : Trace) (names : List String)
    → All (λ name. contains (services trace) name ≡ false) names
      ↔ All (λ name. ¬ Some (λ (span : Span). service span ≡ name) trace.spans) names
forbidden_iff trace [] = (λ h. tt, λ h. tt)
forbidden_iff trace (name ∷ names) =
    let here = services_iff trace name in
    let rest = forbidden_iff trace names in
    (
      λ h. (λ some_span. absurd (ground (arith, here.1 some_span, h.0)), rest.0 h.1),
      λ h. (
        elim (Bool-cases (contains (services trace) name)) [
          | inl there ↦ absurd (h.0 (here.0 there))
          | inr missing ↦ missing
        ],
        rest.1 h.1,
      ),
    )

topology_parts :
    (trace : Trace) (required forbidden : List String)
    → (topology trace required forbidden ≡ []) ↔ (
        All (λ name. contains (services trace) name ≡ true) required
        × All (λ name. contains (services trace) name ≡ false) forbidden
        × All (λ edge. contains allowed_edges edge ≡ true) (service_edges trace))
unfolding topology
topology_parts trace required forbidden =
    let missing = minus required (services trace) in
    let present = filter (contains (services trace)) forbidden in
    let outside = minus (service_edges trace) allowed_edges in
    ground (
      arith,
      append_nil_iff (unless_none missing missing_services)
          (unless_none present forbidden_services ++ unless_none outside outside_topology),
      append_nil_iff (unless_none present forbidden_services)
          (unless_none outside outside_topology),
      unless_none_iff missing missing_services,
      unless_none_iff present forbidden_services,
      unless_none_iff outside outside_topology,
      minus_iff required (services trace),
      none_of_iff (services trace) forbidden,
      minus_iff (service_edges trace) allowed_edges,
    )

-- The check of the topology passes exactly if every required service has a span, no forbidden one
-- has, and every call between services is one of the gateway to OrderService or of OrderService to
-- one of the four services below it; a call is a span whose parent is in the trace and of another
-- service.
pub topology_iff :
    (trace : Trace) (required forbidden : List String)
    → (topology trace required forbidden ≡ []) ↔ (
        All (λ name. Some (λ (span : Span). service span ≡ name) trace.spans) required
        × All (λ name. ¬ Some (λ (span : Span). service span ≡ name) trace.spans) forbidden
        × All (CallsAllowed trace.spans) trace.spans)
topology_iff trace required forbidden =
    let parts = topology_parts trace required forbidden in
    let needed = required_iff trace required in
    let barred = forbidden_iff trace forbidden in
    let calls = service_edges_iff trace in
    (
      λ h. let (a, b, c) = parts.0 h in (needed.0 a, barred.0 b, calls.0 c),
      λ (a, b, c). parts.1 (needed.1 a, barred.1 b, calls.1 c),
    )
