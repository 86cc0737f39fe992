-- ===== src/Contracts/Verify.antt =====
-- The table of the contracts, the snapshot of the counters before the traffic, and `verify`.
use mathlib.Core.Option.{get_or}
use kubernetes_distributed_t.Prometheus
use kubernetes_distributed_t.Schema.{ParameterValue, TelemetryExpectations}
use kubernetes_distributed_t.Contracts.Pods.{
  pod_deletion, readiness_loss, replica_degradation, rolling_restart,
}
use kubernetes_distributed_t.Contracts.Flows.{
  dependency_unavailable, failed_flow, fraud_rejection_flow, inventory_failure_flow, normal_order,
  payment_retry, payment_timeout_flow, shipping_failure_flow, slow_payment,
}
use kubernetes_distributed_t.Contracts.Counters.{
  auth_denied, kong_rate_limit, oversized_request, traffic_spike,
}
use kubernetes_distributed_t.Contracts.Outages.{collector_outage, trace_storage_outage}
use kubernetes_distributed_t.Contracts.{
  Backend, Context, Contract, Finding, Library, State, decision_delay_seconds, metrics, no_findings,
  noted, total_of,
}
use kubernetes_distributed_t.Records.{RunRecord, add_check}
use kubernetes_distributed_t.Common.{
  List, Option, String, [], false, if◌then◌else◌, is_empty, ltb, nat_eq, none, option_eq, some,
  string_eq, true, ℕ, ◌+◌, ◌-◌, ◌∷◌,
}
use kubernetes_distributed_t.Common.Dict.{Dict, keys, lookup}
use kubernetes_distributed_t.Common.Exec.{Exec, Result, ok, pure, raised, ◌>>=◌}

-- METRIC_KEYS
abbrev pub metric_keys : Dict String (List String)
metric_keys =
    ("kong-rate-limit", "kong_429" ∷ "order_posts" ∷ [])
    ∷ ("oversized-request", "kong_413" ∷ "order_posts" ∷ [])
    ∷ ("auth-denied", "order_401" ∷ "order_403" ∷ "inventory_calls" ∷ [])
    ∷ ("traffic-spike", "kong_429" ∷ "order_errors" ∷ "dropped_too_early" ∷ "refused_spans" ∷ [])
    ∷ ("rolling-restart", "order_errors" ∷ [])
    ∷ ("readiness-loss", "order_errors" ∷ [])
    ∷ []

-- The checks that `verify` adds for the findings: a name passes where nothing is wrong.
unfoldable pub add_findings : Dict String (List (String × Finding)) → RunRecord → RunRecord
unfolding add_check
add_findings [] r = r
add_findings ((name, found) ∷ rest) r =
    add_findings rest (add_check name (is_empty found) "telemetry" r)

unfoldable pub add_notes : Dict String (List String) → RunRecord → RunRecord
unfolding add_check
add_notes [] r = r
add_notes ((name, noted) ∷ rest) r = add_notes rest (add_check name true "telemetry" r)

-- What `verify` writes into the record, once the contract has returned.
unfoldable pub conclude : Context → RunRecord → RunRecord
unfolding add_findings add_notes add_check
conclude c r =
    let all_added = add_notes c.notes (add_findings c.problems r) in
    if is_empty c.problems
    then add_check "telemetry contract" false "telemetry" all_added
    else all_added

-- The keys of a scenario's contract; none where it has no contract, or one without counters.
abbrev pub keys_of : Option TelemetryExpectations → List String
keys_of none = []
keys_of (some spec) = get_or (lookup spec.contract metric_keys) []

module _ {S : Type 0} (b : Backend S) where
  -- `{key: prom.total(METRICS[key]) for key in keys}`
  unfoldable pub totals : List String → Exec S (Dict String ℕ)
  unfolding Prometheus.total
  totals [] = pure []
  totals (key ∷ keys) = do
    value ← total_of b (lookup key metrics)
    rest ← totals keys
    pure ((key, value) ∷ rest)

  unfoldable pub snapshot_metrics : Option TelemetryExpectations → RunRecord → Exec S RunRecord
  unfolding totals
  snapshot_metrics telemetry r =
      if is_empty (keys_of telemetry)
      then pure r
      else (totals (keys_of telemetry) >>= λ found. pure (record r { metrics_before = found }))

module _ {S : Type 0} (b : Backend S) (library : Library) where
  -- The contract of a name, where there is one.
  abbrev pub contract_of :
      String → (r : RunRecord) → Dict String ParameterValue → Option (Contract S (Unit {0}))
  contract_of name r parameters = lookup name (
      ("normal-order", normal_order b r library)
      ∷ ("slow-payment", slow_payment b r library parameters)
      ∷ ("payment-retry", payment_retry b r library)
      ∷ ("payment-timeout", failed_flow b r library payment_timeout_flow)
      ∷ ("inventory-failure", failed_flow b r library inventory_failure_flow)
      ∷ ("fraud-rejection", failed_flow b r library fraud_rejection_flow)
      ∷ ("shipping-failure", failed_flow b r library shipping_failure_flow)
      ∷ ("dependency-unavailable", dependency_unavailable b r library)
      ∷ ("pod-deletion", pod_deletion b r library)
      ∷ ("rolling-restart", rolling_restart b r library)
      ∷ ("readiness-loss", readiness_loss b r library parameters)
      ∷ ("replica-degradation", replica_degradation b r library parameters)
      ∷ ("kong-rate-limit", kong_rate_limit b r library.str)
      ∷ ("oversized-request", oversized_request b r library.str)
      ∷ ("auth-denied", auth_denied b r library.str)
      ∷ ("traffic-spike", traffic_spike b r library.str)
      ∷ ("collector-outage", collector_outage b r library)
      ∷ ("trace-storage-outage", trace_storage_outage b r library parameters)
      ∷ [])

  -- `remaining`, slept only where it is positive
  abbrev pub decision_wait : RunRecord → S → S
  decision_wait r s =
      let until = r.workload_finished_at + decision_delay_seconds in
      if ltb (b.wall s) until then b.jaeger.sleep (until - b.wall s) s else s

  abbrev pub finish : RunRecord → Result (Unit {0}) × State S → Result RunRecord × S
  finish r (ok _, w) = (ok (conclude w.context r), w.outside)
  finish r (raised e, w) = (raised e, w.outside)

  abbrev pub run_contract : Option (Contract S (Unit {0})) → RunRecord → Exec S RunRecord
  run_contract none r s = (ok (add_check "telemetry contract" false "telemetry" r), s)
  run_contract (some contract) r s =
      finish r (contract (record { context = no_findings; outside = decision_wait r s }))

  abbrev pub verify_spec : Option TelemetryExpectations → RunRecord → Exec S RunRecord
  verify_spec none r = pure r
  verify_spec (some spec) r = run_contract (contract_of spec.contract r spec.parameters) r

  unfoldable pub verify : Option TelemetryExpectations → RunRecord → Exec S RunRecord
  unfolding add_check conclude normal_order slow_payment payment_retry failed_flow
      dependency_unavailable pod_deletion rolling_restart readiness_loss replica_degradation
      kong_rate_limit oversized_request auth_denied traffic_spike collector_outage
      trace_storage_outage
  verify telemetry r = verify_spec telemetry r
