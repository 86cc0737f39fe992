-- ===== src/Schema.antt =====
-- The validated structure of a scenario file (automation/src/txplatform/scenarios/schema.py).
-- A `Literal` or a `StrEnum` is a data type; a float field is a whole number of thousandths. The
-- `Field` bounds are tests of their own, which pydantic runs before the model validators.
pub mod Faults
pub mod Steps
mod Tests
use kubernetes_distributed_t.Common.{
  Bool, List, Option, String, [], contains, false, if◌then◌else◌, is_none, is_some, leb, nat_eq,
  none, not, option_eq, some, string_eq, true, ℕ, ◌&&◌, ◌==◌, ◌||◌, ◌∷◌,
}
use kubernetes_distributed_t.Common.Dict.{Dict, lookup}

pub data Service : Type 0 where
  inventory_service fraud_service payment_service shipping_service : Service

abbrev pub service_name : Service → String
service_name inventory_service = "inventory-service"
service_name fraud_service = "fraud-service"
service_name payment_service = "payment-service"
service_name shipping_service = "shipping-service"

abbrev pub downstream_services : List String
downstream_services =
    "inventory-service" ∷ "fraud-service" ∷ "payment-service" ∷ "shipping-service" ∷ []

pub data WorkloadKind : Type 0 where
  deployment stateful_set : WorkloadKind

-- Workload name to namespace and kind.
abbrev pub workloads : Dict String (String × WorkloadKind)
workloads =
    ("order-service", ("transaction-platform", deployment))
    ∷ ("inventory-service", ("transaction-platform", deployment))
    ∷ ("fraud-service", ("transaction-platform", deployment))
    ∷ ("payment-service", ("transaction-platform", deployment))
    ∷ ("shipping-service", ("transaction-platform", deployment))
    ∷ ("jaeger-collector", ("observability", deployment))
    ∷ ("opensearch-traces", ("observability", stateful_set))
    ∷ []

abbrev pub fault_operations : Service → List String
fault_operations inventory_service = "inventory.reserve" ∷ "inventory.release" ∷ "readiness" ∷ []
fault_operations fraud_service = "fraud.evaluate" ∷ "readiness" ∷ []
fault_operations payment_service = "payment.authorize" ∷ "payment.void" ∷ "readiness" ∷ []
fault_operations shipping_service = "shipping.create" ∷ "readiness" ∷ []

abbrev pub max_fault_ttl_seconds : ℕ
max_fault_ttl_seconds = 1800

pub data Mode : Type 0 where
  latency http_error timeout intermittent business_rejection readiness_loss : Mode

abbrev pub mode_name : Mode → String
mode_name latency = "latency"
mode_name http_error = "http-error"
mode_name timeout = "timeout"
mode_name intermittent = "intermittent"
mode_name business_rejection = "business-rejection"
mode_name readiness_loss = "readiness-loss"

abbrev pub is_latency : Mode → Bool
is_latency latency = true
is_latency _ = false

abbrev pub is_intermittent : Mode → Bool
is_intermittent intermittent = true
is_intermittent _ = false

abbrev pub is_readiness_loss : Mode → Bool
is_readiness_loss readiness_loss = true
is_readiness_loss _ = false

-- `self.mode in {"http-error", "intermittent"}`
abbrev pub needs_status : Mode → Bool
needs_status http_error = true
needs_status intermittent = true
needs_status _ = false

pub data Phase : Type 0 where
  before_effect after_effect : Phase

abbrev pub phase_name : Phase → String
phase_name before_effect = "before-effect"
phase_name after_effect = "after-effect"

abbrev pub is_after_effect : Option Phase → Bool
is_after_effect (some after_effect) = true
is_after_effect _ = false

pub data Replicas : Type 0 where
  all_replicas one_replica : Replicas

pub record FaultSpec : Type 0 where
  pub service : Service
  pub operation : String
  pub mode : Mode
  pub delay_ms : Option ℕ
  pub status_code : Option ℕ
  pub phase : Option Phase
  pub fail_attempts : Option ℕ
  pub every_nth : Option ℕ
  pub max_activations : Option ℕ
  pub ttl_seconds : ℕ
  pub replicas : Replicas
  pub scoped : Bool

-- `Field(default=None, ge=low, le=high)`
abbrev pub within : Option ℕ → ℕ → ℕ → Bool
within none low high = true
within (some n) low high = leb low n && leb n high

-- `Field(default=None, ge=low)`
abbrev pub at_least : Option ℕ → ℕ → Bool
at_least none low = true
at_least (some n) low = leb low n

unfoldable pub fault_in_bounds : FaultSpec → Bool
fault_in_bounds f =
    within f.delay_ms 1 120_000
    && (within f.status_code 400 599
        && (at_least f.fail_attempts 1
            && (at_least f.every_nth 2
                && (at_least f.max_activations 1
                    && (leb 10 f.ttl_seconds && leb f.ttl_seconds max_fault_ttl_seconds)))))

-- The ValueErrors of the validators.
pub data Invalid : Type 0 where
  no_such_operation readiness_mismatch readiness_scoped needs_delay needs_status_code : Invalid
  needs_one_pattern phase_not_latency : Invalid
  unknown_workload replicas_mismatch restore_not_scale : Invalid
  needs_rate needs_spike spike_too_long debug_identity : Invalid
  all_combined empty_rule : Invalid

abbrev pub xor : Bool → Bool → Bool
xor true b = not b
xor false b = b

-- FaultSpec.check_parameters: the first error raised, or none.
unfoldable pub check_parameters : FaultSpec → Option Invalid
check_parameters f =
    if not (contains (fault_operations f.service) f.operation)
    then some no_such_operation
    else if xor (is_readiness_loss f.mode) (f.operation == "readiness")
    then some readiness_mismatch
    else if is_readiness_loss f.mode && f.scoped
    then some readiness_scoped
    else if is_latency f.mode && is_none f.delay_ms
    then some needs_delay
    else if needs_status f.mode && is_none f.status_code
    then some needs_status_code
    else if is_intermittent f.mode && not (xor (is_none f.fail_attempts) (is_none f.every_nth))
    then some needs_one_pattern
    else if is_after_effect f.phase && not (is_latency f.mode)
    then some phase_not_latency
    else none

pub data RuleValue : Type 0 where
  text : String → RuleValue
  number : ℕ → RuleValue

abbrev pub number_field : Option ℕ → Option RuleValue
number_field none = none
number_field (some n) = some (number n)

abbrev pub phase_field : Option Phase → Option RuleValue
phase_field none = none
phase_field (some p) = some (text (phase_name p))

-- `{key: value for key, value in rule.items() if value is not None}`
unfoldable pub present : Dict String (Option RuleValue) → Dict String RuleValue
present [] = []
present ((k, none) ∷ d) = present d
present ((k, some v) ∷ d) = (k, v) ∷ present d

-- The rule before its empty fields are dropped.
abbrev pub rule_fields : FaultSpec → String → Dict String (Option RuleValue)
rule_fields f scenario_run_id =
    ("operation", some (text f.operation))
    ∷ ("mode", some (text (mode_name f.mode)))
    ∷ ("ttlSeconds", some (number f.ttl_seconds))
    ∷ ("delayMs", number_field f.delay_ms)
    ∷ ("statusCode", number_field f.status_code)
    ∷ ("phase", phase_field f.phase)
    ∷ ("failAttempts", number_field f.fail_attempts)
    ∷ ("everyNth", number_field f.every_nth)
    ∷ ("maxActivations", number_field f.max_activations)
    ∷ ("scenarioRunId", if f.scoped then some (text scenario_run_id) else none)
    ∷ []

unfoldable pub to_rule : FaultSpec → String → Dict String RuleValue
unfolding present
to_rule f scenario_run_id = present (rule_fields f scenario_run_id)

pub data Action : Type 0 where
  delete_pod rollout_restart scale : Action

abbrev pub is_scale : Action → Bool
is_scale scale = true
is_scale _ = false

pub record KubernetesAction : Type 0 where
  pub action : Action
  pub workload : String
  pub at_seconds : ℕ
  pub replicas : Option ℕ
  pub restore_after_seconds : Option ℕ

unfoldable pub action_in_bounds : KubernetesAction → Bool
action_in_bounds a =
    leb a.at_seconds 600_000
    && (within a.replicas 0 5 && within a.restore_after_seconds 1_000 600_000)

-- known_workload and check_replicas
unfoldable pub check_action : KubernetesAction → Option Invalid
check_action a =
    if is_none (lookup a.workload workloads)
    then some unknown_workload
    else if xor (is_scale a.action) (is_some a.replicas)
    then some replicas_mismatch
    else if is_some a.restore_after_seconds && not (is_scale a.action)
    then some restore_not_scale
    else none

pub data Profile : Type 0 where
  single concurrent burst steady spike : Profile

abbrev pub is_spike : Profile → Bool
is_spike spike = true
is_spike _ = false

-- `self.profile in {Profile.STEADY, Profile.SPIKE}`
abbrev pub has_rate : Profile → Bool
has_rate steady = true
has_rate spike = true
has_rate _ = false

pub data OrderTemplate : Type 0 where
  normal high_risk declined restricted_zone out_of_stock oversized malformed : OrderTemplate

pub data Identity : Type 0 where
  scenario_runner order_reader no_identity tampered : Identity

abbrev pub is_scenario_runner : Identity → Bool
is_scenario_runner scenario_runner = true
is_scenario_runner _ = false

pub record WorkloadStep : Type 0 where
  pub profile : Profile
  pub requests : ℕ
  pub concurrency : ℕ
  pub rate_per_second : Option ℕ
  pub duration_seconds : Option ℕ
  pub spike_rate_per_second : Option ℕ
  pub spike_seconds : Option ℕ
  pub order : OrderTemplate
  pub identity : Identity
  pub debug : Bool
  pub delay_seconds : ℕ
  pub label : String

unfoldable pub step_in_bounds : WorkloadStep → Bool
step_in_bounds w =
    leb 1 w.requests
    && (leb w.requests 5000
        && (leb 1 w.concurrency
            && (leb w.concurrency 200
                && (within w.rate_per_second 1 200_000
                    && (within w.duration_seconds 1 600_000
                        && (within w.spike_rate_per_second 1 200_000
                            && (within w.spike_seconds 1 120_000
                                && leb w.delay_seconds 300_000)))))))

-- `a >= b` on two fields that are there
abbrev pub not_below : Option ℕ → Option ℕ → Bool
not_below (some a) (some b) = leb b a
not_below _ _ = false

-- WorkloadStep.check_profile
unfoldable pub check_profile : WorkloadStep → Option Invalid
check_profile w =
    if has_rate w.profile && (is_none w.rate_per_second || is_none w.duration_seconds)
    then some needs_rate
    else if is_spike w.profile && (is_none w.spike_rate_per_second || is_none w.spike_seconds)
    then some needs_spike
    else if is_spike w.profile && not_below w.spike_seconds w.duration_seconds
    then some spike_too_long
    else if w.debug && not (is_scenario_runner w.identity)
    then some debug_identity
    else none

pub record CountRule : Type 0 where
  pub exactly : Option ℕ
  pub minimum : Option ℕ
  pub maximum : Option ℕ
  pub every : Bool

abbrev pub no_bound : CountRule → Bool
no_bound r = is_none r.exactly && (is_none r.minimum && is_none r.maximum)

-- CountRule.one_kind
unfoldable pub one_kind : CountRule → Option Invalid
one_kind r =
    if r.every && not (no_bound r)
    then some all_combined
    else if not r.every && no_bound r
    then some empty_rule
    else none

pub record ApplicationExpectations : Type 0 where
  pub statuses : Dict ℕ CountRule
  pub states : Dict String CountRule
  pub compensation : Option (List String)
  pub authorizations_per_order : Option ℕ

pub data ParameterValue : Type 0 where
  thousandths integer : ℕ → ParameterValue
  string : String → ParameterValue
  boolean : Bool → ParameterValue
  strings : List String → ParameterValue

pub record TelemetryExpectations : Type 0 where
  pub contract : String
  pub parameters : Dict String ParameterValue

pub data Category : Type 0 where
  application_fault kubernetes_fault edge security workload : Category

pub record Scenario : Type 0 where
  pub id : String
  pub title : String
  pub description : String
  pub category : Category
  pub faults : List FaultSpec
  pub kubernetes : List KubernetesAction
  pub workload_steps : List WorkloadStep
  pub application : ApplicationExpectations
  pub telemetry : Option TelemetryExpectations
