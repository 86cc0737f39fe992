-- ===== src/Contracts/Flows.antt =====
-- The contracts on the traces of orders: those of one flow through the services, and the one of a
-- dependency that is away.
use mathlib.Core.Option.{get_or}
use kubernetes_distributed_t.Contracts.{
  Backend, Contract, Finding, Library, all_services, check, check_trace, common, full_path,
  none_ended, none_failed, not_a_timeout, requests, shipping_seen, stored_traces, unless,
}
use kubernetes_distributed_t.Schema.{ParameterValue, thousandths, strings}
use kubernetes_distributed_t.Workload.{RequestRecord}
use kubernetes_distributed_t.Records.{RunRecord}
use kubernetes_distributed_t.TraceChecks.Content.{idempotent_replay}
use kubernetes_distributed_t.TraceChecks.Latency.{latency_dominance}
use kubernetes_distributed_t.TraceChecks.Attempts.{retries}
use kubernetes_distributed_t.TraceChecks.Outcome.{error_marking, state_path}
use kubernetes_distributed_t.TraceChecks.{Problem, stage_order, stages_present, topology}
use kubernetes_distributed_t.Traces.{value_eq, Span, Trace, by_service, named, text}
use kubernetes_distributed_t.Common.{
  Bool, List, Option, String, [], false, if◌then◌else◌, is_empty, nat_eq, none, option_eq, some,
  string_eq, true, ℕ, ◌*◌, ◌++◌, ◌==◌, ◌∷◌,
}
use kubernetes_distributed_t.Common.Dict.{Dict, lookup}
use kubernetes_distributed_t.Common.Exec.{
  Result, for_each, index_error, ok, pure, raise, raised, type_error, when, ◌>>=◌, ◌>>◌,
}

-- A check that may raise: its problems on the trace.
abbrev pub check_result :
    {S : Type 0} → (name : String) → Result (List Problem) → Trace → Contract S (Unit {0})
check_result name (ok problems) t = check_trace name problems t
check_result name (raised e) t = raise e

-- `float` on a parameter's value, in thousandths.
abbrev pub float_of : Library → ParameterValue → Result ℕ
float_of library (thousandths n) = ok n
float_of library (ParameterValue.integer n) = ok (1000 * n)
float_of library (ParameterValue.string s) = library.float s
float_of library (ParameterValue.boolean b) = ok (if b then 1000 else 0)
float_of library (strings items) = raised (type_error "float() argument")

-- `float(ctx.parameters.get(name, default))`
abbrev pub parameter : Library → Dict String ParameterValue → String → ℕ → Result ℕ
parameter library parameters name default =
    float_of library (get_or (lookup name parameters) (thousandths default))

-- A flow that fails: the status of its requests, the path of its states, the services and stages
-- that it has and has not, whether its failure is technical, and the stage that it tries again.
pub record FailedFlow : Type 0 where
  pub status : ℕ
  pub path : List String
  pub required : List String
  pub forbidden : List String
  pub stages : List String
  pub forbidden_stages : List String
  pub technical : Bool
  pub retried_stage : Option (String × ℕ)

abbrev pub payment_timeout_flow : FailedFlow
payment_timeout_flow = record {
  status = 504;
  path = "InventoryReserved" ∷ "PaymentFailed" ∷ [];
  required =
      "kong-gateway" ∷ "order-service" ∷ "inventory-service" ∷ "fraud-service" ∷ "payment-service"
      ∷ [];
  forbidden = "shipping-service" ∷ [];
  stages =
      "payment.authorize" ∷ "compensation.payment.void" ∷ "compensation.inventory.release" ∷ [];
  forbidden_stages = "shipping.create" ∷ [];
  technical = true;
  retried_stage = some ("payment.authorize", 3);
}

abbrev pub inventory_failure_flow : FailedFlow
inventory_failure_flow = record {
  status = 502;
  path = "InventoryFailed" ∷ [];
  required = "kong-gateway" ∷ "order-service" ∷ "inventory-service" ∷ "fraud-service" ∷ [];
  forbidden = "payment-service" ∷ "shipping-service" ∷ [];
  stages = "inventory.reserve" ∷ "fraud.evaluate" ∷ [];
  forbidden_stages = "payment.authorize" ∷ "shipping.create" ∷ [];
  technical = true;
  retried_stage = none;
}

abbrev pub fraud_rejection_flow : FailedFlow
fraud_rejection_flow = record {
  status = 422;
  path = "FraudFailed" ∷ [];
  required = "kong-gateway" ∷ "order-service" ∷ "inventory-service" ∷ "fraud-service" ∷ [];
  forbidden = "payment-service" ∷ "shipping-service" ∷ [];
  stages = "fraud.evaluate" ∷ "compensation.inventory.release" ∷ [];
  forbidden_stages = "payment.authorize" ∷ "shipping.create" ∷ [];
  technical = false;
  retried_stage = none;
}

abbrev pub shipping_failure_flow : FailedFlow
shipping_failure_flow = record {
  status = 502;
  path = "InventoryReserved" ∷ "PaymentAuthorized" ∷ "ShippingFailed" ∷ [];
  required = all_services;
  forbidden = [];
  stages = "shipping.create" ∷ "compensation.payment.void" ∷ "compensation.inventory.release" ∷ [];
  forbidden_stages = [];
  technical = true;
  retried_stage = none;
}

-- The path's problems; the IndexError of an empty path is raised.
abbrev pub path_result : Option (List Problem) → Result (List Problem)
path_result none = raised (index_error "list index out of range")
path_result (some problems) = ok problems

abbrev pub retry_check : {S : Type 0} → Option (String × ℕ) → Trace → Contract S (Unit {0})
retry_check none t = pure tt
retry_check (some (stage, n)) t = check_trace "retry attempts" (retries t stage n) t

-- `stage and stage[0].attributes.get("failure.kind") == "timeout"`
abbrev pub timed_out : List Span → Bool
timed_out [] = false
timed_out (span ∷ _) = lookup "failure.kind" span.attributes == some (text "timeout")

abbrev pub absence : Trace → List Finding
absence t =
    unless (timed_out (named t "shipping.create")) not_a_timeout
    ++ unless (is_empty (by_service t "shipping-service" (some "SERVER"))) shipping_seen

module _ {S : Type 0} (b : Backend S) (r : RunRecord) (library : Library) where
  -- The traces stored for requests, each with the common checks and those of the contract.
  abbrev pub each_stored :
      List RequestRecord
      → (required : List String) (check_name : String)
      → (RequestRecord → Trace → Contract S (Unit {0}))
      → Contract S (Unit {0})
  each_stored sent required check_name body = do
    found ← stored_traces b r sent required check_name
    for_each found (λ entry. common b r library entry.0 entry.1 >> body entry.0 entry.1)

  unfoldable pub normal_order : Contract S (Unit {0})
  unfolding requests stored_traces for_each common topology stage_order state_path error_marking
  normal_order = each_stored (requests r (some 201)) all_services "traces kept" (λ request t. do
    check_trace "topology" (topology t all_services []) t
    check_trace "stage order" (stage_order t) t
    check_result "state events" (path_result (state_path t full_path)) t
    check_trace "error marking" (error_marking t false) t)

  -- `parameters` are those of the scenario's telemetry.
  unfoldable pub slow_payment : Dict String ParameterValue → Contract S (Unit {0})
  unfolding requests stored_traces for_each common latency_dominance state_path
  slow_payment parameters =
      each_stored (requests r (some 201)) all_services "slow traces kept without debug"
        (λ request t. do
          min_share ← (λ w. (parameter library parameters "minShare" 600, w))
          min_trace ← (λ w. (parameter library parameters "minTraceMs" 1_000_000, w))
          check_result "latency attribution"
              (latency_dominance t "payment.authorize" min_share min_trace) t
          check_result "state events" (path_result (state_path t full_path)) t)

  unfoldable pub payment_retry : Contract S (Unit {0})
  unfolding requests stored_traces for_each common retries idempotent_replay latency_dominance
      state_path
  payment_retry =
      each_stored (requests r (some 201)) all_services "retried traces kept" (λ request t. do
        check_trace "retry attempts" (retries t "payment.authorize" 2) t
        check_trace "idempotent replay" (idempotent_replay t) t
        check_result "accumulated latency" (latency_dominance t "payment.authorize" 500 1_500_000) t
        check_result "state events" (path_result (state_path t full_path)) t)

  unfoldable pub failed_flow : FailedFlow → Contract S (Unit {0})
  unfolding requests stored_traces for_each common topology stages_present stage_order state_path
      error_marking retries
  failed_flow flow = do
    let sent = requests r (some flow.status)
    when (is_empty sent) (check "traces kept" (none_ended flow.status ∷ []) "")
    each_stored sent flow.required "failure traces kept" (λ request t. do
      check_trace "topology" (topology t flow.required flow.forbidden) t
      check_trace "stages" (stages_present t flow.stages flow.forbidden_stages) t
      check_trace "stage order" (stage_order t) t
      check_result "state events" (path_result (state_path t flow.path)) t
      check_trace "error marking" (error_marking t flow.technical) t
      retry_check flow.retried_stage t)

  unfoldable pub dependency_unavailable : Contract S (Unit {0})
  unfolding requests stored_traces for_each common named by_service retries stages_present
  dependency_unavailable = do
    let sent = requests r (some 504)
    when (is_empty sent) (check "missing dependency visible" (none_failed ∷ []) "")
    each_stored sent ("kong-gateway" ∷ "order-service" ∷ "payment-service" ∷ [])
        "failure traces kept"
        (λ request t. do
          check "missing dependency visible" (absence t) t.trace_id
          check_trace "retry attempts" (retries t "shipping.create" 3) t
          check_trace "stages"
              (stages_present t
                ("compensation.payment.void" ∷ "compensation.inventory.release" ∷ []) [])
              t)
