-- ===== src/Expectations/Verdicts.antt =====
-- When the checks of a scenario's expectations pass.
use kubernetes_distributed_t.Common.{
  is_empty_iff, list_eq, All, Eq, List, Option, String, [], all, arith, count, false, is_empty,
  length, nat_eq, none, option_eq, some, string_eq, true, ℕ, ◌<◌, ◌↔◌, ◌∷◌, ◌≡◌, ◌≢◌, ◌≤◌, ◌==◌,
  ◌⊎◌, list_beq_iff,
}
use kubernetes_distributed_t.Common.Dict.{Dict, lookup}
use kubernetes_distributed_t.Common.Selected.{Selected, Selected_iff}
use kubernetes_distributed_t.Schema.{CountRule, ApplicationExpectations}
use kubernetes_distributed_t.Expectations.{
  Order, above, below, count_matches, differs, done, evaluate_statuses, mismatched, no_problems,
  unexpected, CheckResult, evaluate_compensation, evaluate_authorizations, CompensationStep,
}

-- The bounds of a rule, each where it is given.
abbrev pub Exactly : Option ℕ → ℕ → Type 0
Exactly none m = Unit {0}
Exactly (some n) m = m ≡ n

abbrev pub AtLeast : Option ℕ → ℕ → Type 0
AtLeast none m = Unit {0}
AtLeast (some n) m = n ≤ m

abbrev pub AtMost : Option ℕ → ℕ → Type 0
AtMost none m = Unit {0}
AtMost (some n) m = m ≤ n

-- What a rule asks of a n among a total.
pub record Satisfies (rule : CountRule) (n total : ℕ) : Type 0 where
  pub whole : rule.every ≡ true → (n ≡ total) × (0 < total)
  pub bounded :
      rule.every ≡ false → Exactly rule.exactly n × AtLeast rule.minimum n × AtMost rule.maximum n

differs_lem : (o : Option ℕ) (n : ℕ) → (differs o n ≡ false) ↔ Exactly o n
differs_lem none n = ground arith
differs_lem (some m) n = ground arith

below_lem : (o : Option ℕ) (n : ℕ) → (below o n ≡ false) ↔ AtLeast o n
below_lem none n = ground arith
below_lem (some m) n = ground arith

above_lem : (o : Option ℕ) (n : ℕ) → (above o n ≡ false) ↔ AtMost o n
above_lem none n = ground arith
above_lem (some m) n = ground arith

pub count_matches_iff :
    (rule : CountRule) (n total : ℕ) → (count_matches rule n total ≡ true) ↔ Satisfies rule n total
unfolding count_matches
count_matches_iff rule n total = (
  λ h. record {
    whole = λ e. ground arith;
    bounded = λ e.
        ground
          (arith, differs_lem rule.exactly n, below_lem rule.minimum n, above_lem rule.maximum n);
  },
  λ s. ground (
    arith,
    s.whole,
    s.bounded,
    differs_lem rule.exactly n,
    below_lem rule.minimum n,
    above_lem rule.maximum n,
  ),
)

module _ {K : Type 0} ⦃e : Eq K⦄ where
  -- What the entries of a dictionary of rules ask of what was seen, and that nothing else was seen.
  abbrev pub Expected : Dict K CountRule → List K → Type 0
  Expected rules seen =
      All (λ (entry : K × CountRule). Satisfies entry.1 (count entry.0 seen) (length seen)) rules
      × All (λ key. lookup key rules ≢ none) seen

  mismatched_iff :
      (rules : Dict K CountRule) (seen : List K)
      → (is_empty (mismatched rules seen) ≡ true)
        ↔ All
            (λ (entry : K × CountRule). Satisfies entry.1 (count entry.0 seen) (length seen))
            rules
  unfolding mismatched
  mismatched_iff [] seen = ground arith
  mismatched_iff ((key, rule) ∷ rules) seen =
      ground
        (arith, mismatched_iff rules seen, count_matches_iff rule (count key seen) (length seen))

  unexpected_iff :
      (rules : Dict K CountRule) (seen : List K)
      → (is_empty (unexpected rules seen) ≡ true) ↔ All (λ key. lookup key rules ≢ none) seen
  unfolding unexpected
  unexpected_iff rules [] = ground arith
  unexpected_iff rules (key ∷ seen) = ground (arith, unexpected_iff rules seen, lookup key rules)

  no_problems_iff :
      (rules : Dict K CountRule) (seen : List K)
      → (no_problems rules seen ≡ true) ↔ Expected rules seen
  unfolding no_problems
  no_problems_iff rules seen = ground (arith, mismatched_iff rules seen, unexpected_iff rules seen)

-- The check of statuses passes exactly if each listed status was answered as often as its rule
-- asks, and no other status was answered.
pub evaluate_statuses_iff :
    (expectations : ApplicationExpectations) (statuses : List ℕ)
    → ((evaluate_statuses expectations statuses).passed ≡ true)
      ↔ Expected expectations.statuses statuses
unfolding evaluate_statuses
evaluate_statuses_iff expectations statuses = no_problems_iff expectations.statuses statuses

-- The actions of the steps whose status is "Succeeded" are the required ones, in their order.
abbrev pub Compensated : List String → Order → Type 0
Compensated required order =
    Selected (λ (step : CompensationStep). step.status ≡ some "Succeeded") (λ step. step.action)
      order.compensation required

done_iff :
    (required : List String) (order : Order)
    → (done order.compensation ≡ required) ↔ Compensated required order
unfolding done
done_iff required order =
    Selected_iff (λ (step : CompensationStep). step.action)
      (λ step. step.status == some "Succeeded")
      (λ step. (option_eq {A = String}).beq_iff step.status (some "Succeeded")) order.compensation
      required

all-Compensated_iff :
    (required : List String) (orders : List Order)
    → (all (λ order. done order.compensation == required) orders ≡ true)
      ↔ All (Compensated required) orders
all-Compensated_iff required [] = ground arith
all-Compensated_iff required (o ∷ orders) = ground (
  arith,
  all-Compensated_iff required orders,
  list_beq_iff (done o.compensation) required,
  done_iff required o,
)

abbrev pub passing : String → Option CheckResult
passing name = some (record { name = name; passed = true })

-- Where compensation is expected, its check passes exactly if the actions of every failed
-- order's compensation steps with the status Succeeded are the required ones in their order, and
-- there is a failed order unless nothing is required.
pub evaluate_compensation_iff :
    (expectations : ApplicationExpectations) (failed_orders : List Order) (required : List String)
    → expectations.compensation ≡ some required
    → (evaluate_compensation expectations failed_orders ≡ passing "compensation")
      ↔ (All (Compensated required) failed_orders × ((failed_orders ≢ []) ⊎ (required ≡ [])))
unfolding evaluate_compensation
evaluate_compensation_iff expectations failed_orders required h = ground (
  arith,
  all-Compensated_iff required failed_orders,
  is_empty_iff failed_orders,
  is_empty_iff required,
)

all_authorized_iff :
    (n : ℕ) (per_order : Dict String ℕ)
    → (all (λ (entry : String × ℕ). entry.1 == n) per_order ≡ true)
      ↔ All (λ (entry : String × ℕ). entry.1 ≡ n) per_order
all_authorized_iff n [] = ground arith
all_authorized_iff n (entry ∷ per_order) = ground (arith, all_authorized_iff n per_order)

-- Where a number of authorizations per order is expected, its check passes exactly if there is an
-- order and every order has that number.
pub evaluate_authorizations_iff :
    (expectations : ApplicationExpectations) (per_order : Dict String ℕ) (n : ℕ)
    → expectations.authorizations_per_order ≡ some n
    → (evaluate_authorizations expectations per_order ≡ passing "payment authorizations")
      ↔ (All (λ (entry : String × ℕ). entry.1 ≡ n) per_order × (per_order ≢ []))
unfolding evaluate_authorizations
evaluate_authorizations_iff expectations per_order n h =
    ground (arith, all_authorized_iff n per_order, is_empty_iff per_order)
