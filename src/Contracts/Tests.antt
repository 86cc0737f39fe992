-- ===== src/Contracts/Tests.antt =====
-- Two orders, one that went through and one that the fraud check rejected, with their traces.
use kubernetes_distributed_t.Contracts.Passed.{
  normal_order_lem, failed_flow_lem, WentThrough, FailedBy,
}
use kubernetes_distributed_t.Schema.{TelemetryExpectations}
use kubernetes_distributed_t.Records.{Check}
use kubernetes_distributed_t.Contracts.Orders.{Traced}
use kubernetes_distributed_t.Jaeger
use kubernetes_distributed_t.Prometheus
use kubernetes_distributed_t.Workload.{RequestRecord}
use kubernetes_distributed_t.Contracts.Logic.{Clean}
use kubernetes_distributed_t.Contracts.Verify.{
  verify, contract_of, snapshot_metrics, decision_wait, keys_of,
}
use kubernetes_distributed_t.Contracts.Snapshots.{Answers, snapshot_metrics_lem}
use kubernetes_distributed_t.Contracts.Verdicts.{AllPassed, verify-AllPassed}
use kubernetes_distributed_t.Contracts.Flows.{normal_order, failed_flow, fraud_rejection_flow}
use kubernetes_distributed_t.Contracts.{
  checked, Backend, Library, State, full_path, no_findings, requests, stored_traces, all_services,
  Contract,
}
use kubernetes_distributed_t.Records.{RunRecord, new_record}
use kubernetes_distributed_t.Traces.{parent_of, Event, Span, service, text}
use kubernetes_distributed_t.Common.{
  List, String, [], if◌then◌else◌, nat_eq, option_eq, refl, string_eq, ℕ, ◌+◌, ◌==◌, ◌∷◌, ◌≡◌, some,
  true, map, ◌≢◌,
}
use kubernetes_distributed_t.Common.Exec.{Exec, ok, raised, value_error}

abbrev step : (trace_id state id parent service name kind : String) (start end : ℕ) → Span
step trace_id state id parent service name kind start end = record {
  trace_id = trace_id;
  span_id = id;
  parent_span_id = parent;
  name = name;
  kind = kind;
  start_unix_nano = start;
  end_unix_nano = end;
  status = "UNSET";
  attributes =
      ("correlation.id", text "c1")
      ∷ ("scenario.run_id", text "run-1")
      ∷ ("kong.request.id", text "k1")
      ∷ ("order.id", text "o1")
      ∷ ("order.state", text state)
      ∷ [];
  events = [];
  resource =
      ("service.name", text service)
      ∷ ("k8s.namespace.name", text "shop")
      ∷ ("k8s.pod.name", text "p")
      ∷ ("k8s.node.name", text "n")
      ∷ ("k8s.deployment.name", text "d")
      ∷ [];
}

abbrev changes : List String → List Event
changes [] = []
changes (state ∷ states) =
    record {
      name = "order.state_changed";
      time_unix_nano = 0;
      attributes = ("order.state.to", text state) ∷ [];
    }
    ∷ changes states

abbrev with_changes : List String → Span → Span
with_changes states span = record span { events = changes states }

abbrev completed_spans : List Span
completed_spans =
    step "t1" "Completed" "1" "" "kong-gateway" "POST /orders" "SERVER" 0 200
    ∷ step "t1" "Completed" "2" "1" "order-service" "POST /orders" "SERVER" 5 195
    ∷ with_changes full_path
        (step "t1" "Completed" "3" "2" "order-service" "order.transaction" "INTERNAL" 6 190)
    ∷ step "t1" "Completed" "4" "3" "order-service" "inventory.reserve" "INTERNAL" 10 40
    ∷ step "t1" "Completed" "5" "4" "inventory-service" "POST /reservations" "SERVER" 12 30
    ∷ step "t1" "Completed" "6" "3" "order-service" "fraud.evaluate" "INTERNAL" 11 35
    ∷ step "t1" "Completed" "7" "6" "fraud-service" "POST /evaluations" "SERVER" 13 33
    ∷ step "t1" "Completed" "8" "3" "order-service" "payment.authorize" "INTERNAL" 50 80
    ∷ step "t1" "Completed" "9" "8" "payment-service" "POST /authorizations" "SERVER" 55 75
    ∷ step "t1" "Completed" "10" "3" "order-service" "shipping.create" "INTERNAL" 90 120
    ∷ step "t1" "Completed" "11" "10" "shipping-service" "POST /shipments" "SERVER" 95 110
    ∷ []

abbrev rejected_spans : List Span
rejected_spans =
    step "t2" "FraudFailed" "1" "" "kong-gateway" "POST /orders" "SERVER" 0 200
    ∷ step "t2" "FraudFailed" "2" "1" "order-service" "POST /orders" "SERVER" 5 195
    ∷ with_changes ("FraudFailed" ∷ [])
        (step "t2" "FraudFailed" "3" "2" "order-service" "order.transaction" "INTERNAL" 6 190)
    ∷ step "t2" "FraudFailed" "4" "3" "order-service" "inventory.reserve" "INTERNAL" 10 40
    ∷ step "t2" "FraudFailed" "5" "4" "inventory-service" "POST /reservations" "SERVER" 12 30
    ∷ step "t2" "FraudFailed" "6" "3" "order-service" "fraud.evaluate" "INTERNAL" 11 35
    ∷ step "t2" "FraudFailed" "7" "6" "fraud-service" "POST /evaluations" "SERVER" 13 33
    ∷ step "t2" "FraudFailed" "8" "3" "order-service" "compensation.inventory.release" "INTERNAL" 45
        60
    ∷ []

abbrev sent_request : (trace_id : String) (status : ℕ) → RequestRecord
sent_request trace_id status = record {
  step = 0;
  sequence = 0;
  label = "";
  planned_offset = record { base = 0; index = 0; rate = 1 };
  started_at = 0;
  duration = 0;
  status = status;
  correlation_id = "c1";
  kong_request_id = "k1";
  trace_id = trace_id;
  order_id = "o1";
  state = "";
  error = "";
}

abbrev sent_run : RunRecord
sent_run = record (new_record "run-1" "s1") {
  requests = sent_request "t1" 201 ∷ sent_request "t2" 422 ∷ [];
}

-- A cluster whose state is the time.
abbrev stored_answer : String → Jaeger.Answer
stored_answer id = record {
  status = 200;
  spans = if id == "t1" then completed_spans else rejected_spans;
}

abbrev timed_api : Jaeger.Api ℕ
timed_api = record {
  get = λ id s. (ok (stored_answer id), s + 1);
  find = λ search s. (ok (stored_answer "t1"), s + 1);
  clock = λ s. s;
  sleep = λ n s. s + n;
}

abbrev five_everywhere : String → Exec ℕ Prometheus.Payload
five_everywhere e s = (
  ok (record {
    http_status = 200;
    status = "success";
    result = record { labels = []; value = 5 } ∷ [];
  }),
  s + 1,
)

abbrev sample_backend : Backend ℕ
sample_backend = record {
  jaeger = timed_api;
  prometheus = five_everywhere;
  wall = λ s. s;
  call_rate = λ now s. (ok (200, 1), s);
}

abbrev sample_library : Library
sample_library = record {
  int = λ v. 0;
  dumps = λ t. "";
  str = λ n. "";
  float = λ s. raised (value_error "could not convert string to float");
}

abbrev begun : State ℕ
begun = record { context = no_findings; outside = 0 }

normal_returns : (normal_order sample_backend sent_run sample_library begun).0 ≡ ok tt
unfolding normal_order requests stored_traces
normal_returns = refl

normal_finds_nothing :
    Clean (normal_order sample_backend sent_run sample_library begun).1.context.problems
unfolding normal_order checked parent_of
normal_finds_nothing = (refl, (refl, (refl, (refl, (refl, (refl, (refl, (refl, tt))))))))

normal_order_lem_example :
    Traced sent_run sample_library all_services (requests sent_run (some 201)) WentThrough
normal_order_lem_example =
    normal_order_lem sample_backend sent_run sample_library begun normal_returns
      normal_finds_nothing

rejection_finds_nothing :
    Clean
      (failed_flow sample_backend sent_run sample_library fraud_rejection_flow
        begun).1.context.problems
unfolding failed_flow checked parent_of
rejection_finds_nothing = (refl, (refl, (refl, (refl, (refl, (refl, (refl, (refl, (refl, tt)))))))))

rejection_returns :
    (failed_flow sample_backend sent_run sample_library fraud_rejection_flow begun).0 ≡ ok tt
unfolding failed_flow
rejection_returns = refl

failed_flow_lem_example :
    (requests sent_run (some 422) ≢ [])
    × Traced sent_run sample_library fraud_rejection_flow.required
        (requests sent_run (some 422))
        (FailedBy fraud_rejection_flow)
failed_flow_lem_example =
    failed_flow_lem sample_backend sent_run sample_library begun fraud_rejection_flow
      rejection_returns rejection_finds_nothing

abbrev rejection_contract : TelemetryExpectations
rejection_contract = record { contract = "fraud-rejection"; parameters = [] }

abbrev passed_check : String → Check
passed_check name = record { layer = "telemetry"; name = name; passed = true }

abbrev verified_run : RunRecord
verified_run = record sent_run {
  checks = map passed_check (
      "trace integrity" ∷ "kubernetes metadata" ∷ "correlation" ∷ "sensitive data" ∷ "topology"
      ∷ "stages" ∷ "stage order" ∷ "state events" ∷ "error marking" ∷ []);
}

rejection_verified :
    (verify sample_backend sample_library (some rejection_contract) sent_run 0).0 ≡ ok verified_run
unfolding verify checked parent_of
rejection_verified = refl

verify-AllPassed_example :
    (contract : Contract ℕ (Unit {0})) × (contract_of sample_backend sample_library
        "fraud-rejection" sent_run []
      ≡ some contract)
    × (w : State ℕ) × (contract (record {
      context = no_findings;
      outside = decision_wait sample_backend sample_library sent_run 0;
    })
        ≡ (ok tt, w))
    × Clean w.context.problems
    × (w.context.problems ≢ [])
    × AllPassed sent_run
verify-AllPassed_example =
    verify-AllPassed sample_backend sample_library rejection_contract sent_run verified_run 0
      rejection_verified (refl, (refl, (refl, (refl, (refl, (refl, (refl, (refl, (refl, tt)))))))))

abbrev spike_contract : TelemetryExpectations
spike_contract = record { contract = "traffic-spike"; parameters = [] }

always-Answers : Answers sample_backend
always-Answers = record {
  answer = λ e s. (
    record {
      http_status = 200;
      status = "success";
      result = record { labels = []; value = 5 } ∷ [];
    },
    refl,
    refl,
    refl,
  );
}

snapshot_metrics_lem_example :
    (after : RunRecord) × ((snapshot_metrics sample_backend (some spike_contract) sent_run 0).0
      ≡ ok after)
    × (keys_of (some spike_contract) ≢ []
        → map (λ entry. entry.0) after.metrics_before ≡ keys_of (some spike_contract))
snapshot_metrics_lem_example =
    snapshot_metrics_lem sample_backend always-Answers (some spike_contract) sent_run 0
