-- ===== src/Schema/Faults.antt =====
-- What an accepted fault looks like, and the rule that is sent for it.
use Prim.Native.String.{String}
use kubernetes_distributed_t.Common.{
  Option, String, [], arith, contains, eq_iff, false, is_none, nat_eq, none, not, option_eq, refl,
  some, string_eq, true, ℕ, ◌&&◌, ◌==◌, ◌↔◌, ◌∙◌, ◌∷◌, ◌≡◌, ◌≢◌, ◌≤◌, ◌⊎◌, ap, inl, inr,
}
use kubernetes_distributed_t.Common.Dict.{NodupKeys}
use kubernetes_distributed_t.Schema.{
  FaultSpec, Mode, Phase, RuleValue, after_effect, check_parameters, fault_in_bounds,
  fault_operations, http_error, intermittent, is_after_effect, is_intermittent, is_latency,
  is_readiness_loss, latency, needs_status, number, present, readiness_loss, rule_fields, text,
  to_rule, xor, Dict, lookup, within, number_field, mode_name, at_least,
}

-- The consistency of a fault, condition by condition.
pub record IsConsistent (f : FaultSpec) : Type 0 where
  pub known : contains (fault_operations f.service) f.operation ≡ true
  pub readiness : (f.mode ≡ readiness_loss) ↔ (f.operation ≡ "readiness")
  pub whole_pod : f.mode ≡ readiness_loss → f.scoped ≡ false
  pub delayed : f.mode ≡ latency → f.delay_ms ≢ none
  pub answered : (f.mode ≡ http_error) ⊎ (f.mode ≡ intermittent) → f.status_code ≢ none
  pub one_pattern :
      f.mode ≡ intermittent
      → (f.fail_attempts ≢ none) × (f.every_nth ≡ none)
        ⊎ (f.fail_attempts ≡ none) × (f.every_nth ≢ none)
  pub after_latency : f.phase ≡ some after_effect → f.mode ≡ latency

readiness_loss_iff : (m : Mode) → (is_readiness_loss m ≡ true) ↔ (m ≡ readiness_loss)
readiness_loss_iff m = ground arith

latency_iff : (m : Mode) → (is_latency m ≡ true) ↔ (m ≡ latency)
latency_iff m = ground arith

intermittent_iff : (m : Mode) → (is_intermittent m ≡ true) ↔ (m ≡ intermittent)
intermittent_iff m = ground arith

needs_status_iff : (m : Mode) → (needs_status m ≡ true) ↔ ((m ≡ http_error) ⊎ (m ≡ intermittent))
needs_status_iff m = ground arith

after_effect_iff : (p : Option Phase) → (is_after_effect p ≡ true) ↔ (p ≡ some after_effect)
after_effect_iff p = ground arith

-- The validator raises no error exactly for the consistent faults.
pub check_parameters_iff : (f : FaultSpec) → (check_parameters f ≡ none) ↔ IsConsistent f
unfolding check_parameters
check_parameters_iff f = (
  λ h. record {
    known = ground arith;
    readiness = ground (arith, readiness_loss_iff f.mode, eq_iff f.operation "readiness");
    whole_pod = ground arith;
    delayed = ground arith;
    answered = ground arith;
    one_pattern = ground arith;
    after_latency = ground arith;
  },
  λ c.
      let same : xor (is_readiness_loss f.mode) (f.operation == "readiness") ≡ false =
        ground (arith, readiness_loss_iff f.mode, eq_iff f.operation "readiness", c.readiness) in
      let pattern : (is_intermittent f.mode
            && not (xor (is_none f.fail_attempts) (is_none f.every_nth)))
          ≡ false =
        ground (arith, c.one_pattern) in
      let after : (is_after_effect f.phase && not (is_latency f.mode)) ≡ false =
        ground (arith, c.after_latency) in
      let status : (needs_status f.mode && is_none f.status_code) ≡ false =
        ground (arith, c.answered) in
      let delay : (is_latency f.mode && is_none f.delay_ms) ≡ false = ground (arith, c.delayed) in
      let whole : (is_readiness_loss f.mode && f.scoped) ≡ false = ground (arith, c.whole_pod) in
      let known : contains (fault_operations f.service) f.operation ≡ true = c.known in
      rw (known, same, whole, delay, status, pattern, after),
)

abbrev pub join : Option (Option RuleValue) → Option RuleValue
join none = none
join (some o) = o

-- Dropping the empty fields changes no other field.
lookup-present :
    (k : String) (d : Dict String (Option RuleValue))
    → NodupKeys d
    → lookup k (present d) ≡ join (lookup k d)
unfolding present
lookup-present k [] u = refl
lookup-present k ((j, none) ∷ d) (fresh, u) = ground (arith, lookup-present k d u, eq_iff j k)
lookup-present k ((j, some v) ∷ d) (fresh, u) = ground (arith, lookup-present k d u, eq_iff j k)

rule_keys_once : (f : FaultSpec) (run : String) → NodupKeys (rule_fields f run)
rule_keys_once f run =
    (refl, (refl, (refl, (refl, (refl, (refl, (refl, (refl, (refl, (refl, tt))))))))))

rule_field :
    (f : FaultSpec) (run k : String)
    → lookup k (to_rule f run) ≡ join (lookup k (rule_fields f run))
unfolding to_rule
rule_field f run k = lookup-present k (rule_fields f run) (rule_keys_once f run)

-- A rule has a number from `low` on under a key.
abbrev pub HasNumber : Dict String RuleValue → (key : String) → (low : ℕ) → Type 0
HasNumber rule key low = (n : ℕ) × (lookup key rule ≡ some (number n)) × (low ≤ n)

-- As `HasNumber`, and the number is at most `high`.
abbrev pub HasNumberWithin : Dict String RuleValue → (key : String) → (low high : ℕ) → Type 0
HasNumberWithin rule key low high =
    (n : ℕ) × (lookup key rule ≡ some (number n)) × (low ≤ n) × (n ≤ high)

-- A rule that does what a fault of the run is meant to do.
pub record IsRuleOf (f : FaultSpec) (run : String) (rule : Dict String RuleValue) : Type 0 where
  pub of_operation : lookup "operation" rule ≡ some (text f.operation)
  pub of_mode : lookup "mode" rule ≡ some (text (mode_name f.mode))
  pub expires : HasNumberWithin rule "ttlSeconds" 10 1800
  pub delays : f.mode ≡ latency → HasNumberWithin rule "delayMs" 1 120_000
  pub answers :
      (f.mode ≡ http_error) ⊎ (f.mode ≡ intermittent) → HasNumberWithin rule "statusCode" 400 599
  -- Either the first attempts fail, or every nth one does.
  pub alternates :
      f.mode ≡ intermittent
      → HasNumber rule "failAttempts" 1 × (lookup "everyNth" rule ≡ none)
        ⊎ HasNumber rule "everyNth" 2 × (lookup "failAttempts" rule ≡ none)
  pub after : f.phase ≡ some after_effect → lookup "phase" rule ≡ some (text "after-effect")
  pub of_run : f.scoped ≡ true → lookup "scenarioRunId" rule ≡ some (text run)
  pub of_any_run :
      (f.scoped ≡ false) ⊎ (f.mode ≡ readiness_loss) → lookup "scenarioRunId" rule ≡ none

bounded_number :
    (o : Option ℕ) (low high : ℕ)
    → o ≢ none
    → within o low high ≡ true
    → (n : ℕ) × (number_field o ≡ some (number n)) × (low ≤ n) × (n ≤ high)
bounded_number none low high there h = absurd (there refl)
bounded_number (some n) low high there h = (n, refl, ground arith, ground arith)

bounded_field :
    (f : FaultSpec) (run k : String) (o : Option ℕ) (low high : ℕ)
    → join (lookup k (rule_fields f run)) ≡ number_field o
    → o ≢ none
    → within o low high ≡ true
    → (n : ℕ) × (lookup k (to_rule f run) ≡ some (number n)) × (low ≤ n) × (n ≤ high)
bounded_field f run k o low high e there h =
    let (n, p, l, u) = bounded_number o low high there h in (n, rule_field f run k ∙ (e ∙ p), l, u)

least_field :
    (f : FaultSpec) (run k : String) (o : Option ℕ) (low : ℕ)
    → join (lookup k (rule_fields f run)) ≡ number_field o
    → o ≢ none
    → at_least o low ≡ true
    → HasNumber (to_rule f run) k low
least_field f run k none low e there h = absurd (there refl)
least_field f run k (some n) low e there h = (n, rule_field f run k ∙ e, ground arith)

absent_field :
    (f : FaultSpec) (run k : String) (o : Option ℕ)
    → join (lookup k (rule_fields f run)) ≡ number_field o
    → o ≡ none
    → lookup k (to_rule f run) ≡ none
absent_field f run k o e missing = rule_field f run k ∙ (e ∙ ap number_field missing)

pattern_fields :
    (f : FaultSpec) (run : String)
    → fault_in_bounds f ≡ true
    → (f.fail_attempts ≢ none) × (f.every_nth ≡ none)
      ⊎ (f.fail_attempts ≡ none) × (f.every_nth ≢ none)
    → HasNumber (to_rule f run) "failAttempts" 1 × (lookup "everyNth" (to_rule f run) ≡ none)
      ⊎ HasNumber (to_rule f run) "everyNth" 2 × (lookup "failAttempts" (to_rule f run) ≡ none)
unfolding fault_in_bounds
pattern_fields f run bounds (inl (there, missing)) = inl (
  least_field f run "failAttempts" f.fail_attempts 1 refl there (ground arith),
  absent_field f run "everyNth" f.every_nth refl missing,
)
pattern_fields f run bounds (inr (missing, there)) = inr (
  least_field f run "everyNth" f.every_nth 2 refl there (ground arith),
  absent_field f run "failAttempts" f.fail_attempts refl missing,
)

-- The rule of an accepted fault names its operation and mode, expires within half an hour, has what
-- its mode needs (a delay, a status code, and, for an intermittent fault, exactly one of the number
-- of failing attempts and the period), acts after the effect where the fault does, and carries
-- the run's id exactly if the fault is scoped, which a readiness fault never is.
pub to_rule-IsRuleOf :
    (f : FaultSpec) (run : String)
    → fault_in_bounds f ≡ true
    → check_parameters f ≡ none
    → IsRuleOf f run (to_rule f run)
unfolding fault_in_bounds
to_rule-IsRuleOf f run bounds valid =
    let c = (check_parameters_iff f).0 valid in
    record {
      of_operation = rule_field f run "operation";
      of_mode = rule_field f run "mode";
      expires = (f.ttl_seconds, rule_field f run "ttlSeconds", ground arith, ground arith);
      delays =
          λ m. bounded_field f run "delayMs" f.delay_ms 1 120_000 refl (c.delayed m) (ground arith);
      answers = λ m.
          bounded_field f run "statusCode" f.status_code 400 599 refl (c.answered m) (ground arith);
      alternates = λ m. pattern_fields f run bounds (c.one_pattern m);
      after = λ e. rule_field f run "phase" ∙ rw e refl;
      of_run = λ e. rule_field f run "scenarioRunId" ∙ ground (arith, e);
      of_any_run = λ m. elim m [
        | inl e ↦ rule_field f run "scenarioRunId" ∙ ground (arith, e)
        | inr e ↦ rule_field f run "scenarioRunId" ∙ ground (arith, c.whole_pod e)
      ];
    }
