-- ===== src/Contracts/Counters.antt =====
-- The contracts on counters: requests that are refused at the gateway or by OrderService, and the
-- spike.
use kubernetes_distributed_t.Jaeger
use kubernetes_distributed_t.Contracts.{
  Backend, Contract, ask, beyond_kong, check, dependency_called, dropped_spans, error_spans,
  is_delta, metric_delta, no_points, passed_through, requests, unless, wait_metric_delta,
  wrong_count,
}
use kubernetes_distributed_t.Workload.{RequestRecord}
use kubernetes_distributed_t.Records.{RunRecord}
use kubernetes_distributed_t.Traces.{Trace, services}
use kubernetes_distributed_t.Common.{
  Bool, Option, String, [], all, contains, filter, is_empty, length, ltb, nat_eq, none, not,
  option_eq, some, string_eq, take, ℕ, ◌!=◌, ◌&&◌, ◌*◌, ◌==◌, ◌∷◌,
}
use kubernetes_distributed_t.Common.Exec.{for_each, gets, pure, when, ◌>>=◌, ◌>>◌}
use kubernetes_distributed_t.Common.Texts.{concat}

-- `status not in {status, 0}`
abbrev pub passed_kong : (status : ℕ) → RequestRecord → Bool
passed_kong status request = not (contains (status ∷ 0 ∷ []) request.status)

-- The services of a rejected request's trace are the gateway alone; a trace has a span.
abbrev pub ends_at_kong : Trace → Bool
ends_at_kong t = not (is_empty t.spans) && all (λ s. s == "kong-gateway") (services t)

abbrev pub rejection_check : {S : Type 0} → Option Trace → Contract S (Unit {0})
rejection_check none = pure tt
rejection_check (some t) =
    check "kept rejection traces end at Kong" (unless (ends_at_kong t) (beyond_kong (services t)))
      t.trace_id

module _ {S : Type 0} (b : Backend S) (r : RunRecord) (str : ℕ → String) where
  abbrev pub counted_check : (name metric : String) (observed : ℕ) → Contract S (Unit {0})
  counted_check name metric observed = do
    counted ← wait_metric_delta b r metric observed 120
    check name (unless (is_delta counted observed) (wrong_count counted observed)) ""

  -- `_edge_rejection`
  unfoldable pub edge_rejection : (status : ℕ) (metric : String) → Contract S (Unit {0})
  unfolding requests wait_metric_delta for_each services Jaeger.get_trace
  edge_rejection status metric = do
    counted_check (concat ("span metrics count every " ∷ str status ∷ " at Kong" ∷ [])) metric
        (length (requests r (some status)))
    let accepted = length (filter (passed_kong status) (requests r none))
    reached ← wait_metric_delta b r "order_posts" accepted 60
    check "rejected requests never reached OrderService"
        (unless (is_delta reached accepted) (passed_through reached accepted)) ""
    for_each (take 20 (requests r (some status))) (λ request.
        when (request.trace_id != "")
          (ask (Jaeger.get_trace b.jaeger request.trace_id) >>= rejection_check))

  unfoldable pub kong_rate_limit : Contract S (Unit {0})
  unfolding edge_rejection
  kong_rate_limit = edge_rejection 429 "kong_429"

  unfoldable pub oversized_request : Contract S (Unit {0})
  unfolding edge_rejection
  oversized_request = edge_rejection 413 "kong_413"

  unfoldable pub auth_denied : Contract S (Unit {0})
  unfolding requests wait_metric_delta metric_delta for_each
  auth_denied = do
    for_each ((401, "order_401") ∷ (403, "order_403") ∷ []) (λ (entry : ℕ × String).
        counted_check (concat ("span metrics count every " ∷ str entry.0 ∷ [])) entry.1
          (length (requests r (some entry.0))))
    below_order ← metric_delta b r "inventory_calls"
    check "denied requests reached no dependency"
        (unless (is_delta below_order 0) (dependency_called below_order)) ""

  -- The answer of the Monitor API is its status and the number of points in it.
  unfoldable pub traffic_spike : Contract S (Unit {0})
  unfolding requests wait_metric_delta metric_delta
  traffic_spike = do
    counted_check "span metrics count every 429 at Kong" "kong_429" (length (requests r (some 429)))
    errors ← metric_delta b r "order_errors"
    check "no application errors under load" (unless (is_delta errors 0) (error_spans errors)) ""
    dropped ← metric_delta b r "dropped_too_early"
    refused ← metric_delta b r "refused_spans"
    check "telemetry pipeline kept up"
        (unless (is_delta dropped 0 && is_delta refused 0) (dropped_spans dropped refused)) ""
    now ← gets (λ w. b.wall w.outside)
    answer ← ask (b.call_rate (1000 * now))
    check "Monitor tab shows the spike"
        (unless (answer.0 == 200 && ltb 0 answer.1) (no_points answer.0)) ""
