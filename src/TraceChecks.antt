-- ===== src/TraceChecks.antt =====
-- Checks on one trace (automation/src/txplatform/scenarios/tracechecks.py). A problem is the
-- message's fixed part with the values that decide it; an empty list means that the check passed.
-- The set of a trace's services or edges is a list, whose repetitions and order a message drops.
pub mod Gaps
pub mod Integrity
pub mod Attempts
pub mod Structure
pub mod Once
pub mod Order
pub mod Compensating
pub mod Outcome
pub mod Content
pub mod Latency
pub mod Carried
mod Tests
use Prim.Native.Nat.{max}
use kubernetes_distributed_t.Common.{
  Bool, Eq, List, Option, String, [], arith, contains, eq_iff, filter, if◌then◌else◌, is_empty, leb,
  ltb, map, nat_eq, none, not, option_eq, some, string_eq, ℕ, ◌!=◌, ◌&&◌, ◌++◌, ◌==◌, ◌∷◌, ◌≡◌,
  true, ◌↔◌, false,
}
use kubernetes_distributed_t.Common.Dict.{lookup}
use kubernetes_distributed_t.Traces.{
  Span, Trace, Value, named, overlaps, parent_of, service, services,
}

abbrev pub edge_service : String
edge_service = "kong-gateway"

abbrev pub order_service : String
order_service = "order-service"

abbrev pub downstream : List String
downstream = "inventory-service" ∷ "fraud-service" ∷ "payment-service" ∷ "shipping-service" ∷ []

abbrev pub allowed_edges : List (String × String)
allowed_edges = (edge_service, order_service) ∷ map (λ service. (order_service, service)) downstream

abbrev pub stages : List String
stages = "inventory.reserve" ∷ "fraud.evaluate" ∷ "payment.authorize" ∷ "shipping.create" ∷ []

abbrev pub compensation_stages : List String
compensation_stages = "compensation.payment.void" ∷ "compensation.inventory.release" ∷ []

pub data Problem : Type 0 where
  parent_missing : (names : List String) → Problem
  not_one_root : ℕ → Problem
  foreign_root : (service : String) → Problem
  missing_services forbidden_services : List String → Problem
  outside_topology : List (String × String) → Problem
  stage_missing stage_forbidden : String → Problem
  not_both no_overlap payment_early shipping_early : Problem
  compensation_early : String → Problem
  no_transaction wrong_path wrong_state error_not_marked error_marked : Problem
  wrong_attempts : (stage : String) → Problem
  wrong_retry_events : ℕ → Problem
  wrong_retry_count : Problem
  few_attempts wrong_recordings : ℕ → Problem
  no_replay : Problem
  lacks : (service name : String) (keys : List String) → Problem
  kong_lacks_namespace no_server : Problem
  differs_at : (key : String) → Problem
  foreign_runs : List (Option Value) → Problem
  sensitive_attribute : (service name key : String) → Problem
  canary_found : (canary : String) → Problem
  too_little : (stage : String) → Problem
  longest_is : (name stage : String) → Problem
  too_short : Problem
  stage_or_transaction_missing : (stage : String) → Problem

-- `if test: problems.append(problem)`
abbrev pub problem_if : Bool → Problem → List Problem
problem_if b p = if b then p ∷ [] else []

pub problem_if_iff : (b : Bool) (p : Problem) → (problem_if b p ≡ []) ↔ (b ≡ false)
problem_if_iff true p = ground arith
problem_if_iff false p = ground arith

abbrev pub only : List Span → Option Span
only (span ∷ []) = some span
only _ = none

-- `_single`
unfoldable pub single : Trace → String → Option Span
unfolding named
single trace name = only (named trace name)

unfoldable pub transaction : Trace → Option Span
unfolding single
transaction trace = single trace "order.transaction"

abbrev pub edge_beq : (a b : String × String) → Bool
edge_beq a b = a.0 == b.0 && a.1 == b.1

pub edge_beq_iff : (a b : String × String) → (edge_beq a b ≡ true) ↔ (a ≡ b)
edge_beq_iff a b = ground (arith, eq_iff a.0 b.0, eq_iff a.1 b.1)

instance abbrev pub edge_eq : Eq (String × String)
edge_eq = record { beq = edge_beq; beq_iff = edge_beq_iff }

abbrev pub edge_of : Option Span → Span → List (String × String)
edge_of none span = []
edge_of (some parent) span =
    if service parent != service span then (service parent, service span) ∷ [] else []

unfoldable pub edges_from : Trace → List Span → List (String × String)
edges_from trace [] = []
edges_from trace (span ∷ spans) = edge_of (parent_of trace span) span ++ edges_from trace spans

unfoldable pub service_edges : Trace → List (String × String)
unfolding edges_from
service_edges trace = edges_from trace trace.spans

-- `left - right`
abbrev pub minus {ℓ} : {A : Type ℓ} ⦃e : Eq A⦄ → List A → List A → List A
minus left right = filter (λ x. not (contains right x)) left

abbrev pub unless_none {ℓ} : {A : Type ℓ} → List A → (List A → Problem) → List Problem
unless_none xs p = problem_if (not (is_empty xs)) (p xs)

unfoldable pub topology : Trace → (required forbidden : List String) → List Problem
unfolding service_edges services
topology trace required forbidden =
    unless_none (minus required (services trace)) missing_services
    ++ (unless_none (filter (contains (services trace)) forbidden) forbidden_services
        ++ unless_none (minus (service_edges trace) allowed_edges) outside_topology)

unfoldable pub stages_present : Trace → (required forbidden : List String) → List Problem
unfolding named
stages_present trace required forbidden =
    map stage_missing (filter (λ name. is_empty (named trace name)) required)
    ++ map stage_forbidden (filter (λ name. not (is_empty (named trace name))) forbidden)

unfoldable pub last_end : List Span → ℕ
last_end [] = 0
last_end (span ∷ spans) =
    let rest = last_end spans in if leb rest span.end_unix_nano then span.end_unix_nano else rest

unfoldable pub named_any : Trace → List String → List Span
unfolding named
named_any trace [] = []
named_any trace (name ∷ names) = named trace name ++ named_any trace names

-- The compensation spans that started before `limit`.
abbrev pub early : ℕ → List Span → List Problem
early limit [] = []
early limit (span ∷ spans) =
    problem_if (ltb span.start_unix_nano limit) (compensation_early span.name) ++ early limit spans

abbrev pub later_than : Option Span → ℕ → Problem → List Problem
later_than none limit p = []
later_than (some span) limit p = problem_if (ltb span.start_unix_nano limit) p

abbrev pub after_payment : (shipping payment : Option Span) → List Problem
after_payment shipping none = []
after_payment shipping (some payment) = later_than shipping payment.end_unix_nano shipping_early

abbrev pub order_problems : Trace → (inventory fraud : Option Span) → List Problem
order_problems trace (some inventory) (some fraud) =
    let payment = single trace "payment.authorize" in
    let fan_out_end = max inventory.end_unix_nano fraud.end_unix_nano in
    problem_if (not (overlaps inventory fraud)) no_overlap
    ++ (later_than payment fan_out_end payment_early
        ++ (after_payment (single trace "shipping.create") payment
            ++ early (last_end (named_any trace stages)) (named_any trace compensation_stages)))
order_problems trace _ _ = not_both ∷ []

unfoldable pub stage_order : Trace → List Problem
unfolding single overlaps last_end named_any
stage_order trace =
    order_problems trace (single trace "inventory.reserve") (single trace "fraud.evaluate")

-- The values of `order.state.to` on the state events; none where an event has no such attribute.
unfoldable pub state_changes : Span → List (Option Value)
state_changes tx =
    map (λ event. lookup "order.state.to" event.attributes)
      (filter (λ event. event.name == "order.state_changed") tx.events)
