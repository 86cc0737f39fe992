-- ===== src/Expectations.antt =====
-- What a scenario's traffic must have produced
-- (automation/src/txplatform/scenarios/expectations.py). A result is its name and verdict; the
-- detail, a text for people, is the list of what is wrong.
pub mod Verdicts
mod Tests
use kubernetes_distributed_t.Common.{
  list_eq, Bool, Eq, List, Option, String, [], all, count, false, filter, if◌then◌else◌, is_empty,
  is_none, length, ltb, map, nat_eq, none, not, option_eq, some, string_eq, true, ℕ, ◌!=◌, ◌&&◌,
  ◌==◌, ◌||◌, ◌∷◌,
}
use kubernetes_distributed_t.Common.Dict.{Dict, lookup}
use kubernetes_distributed_t.Schema.{CountRule, ApplicationExpectations}

pub record CheckResult : Type 0 where
  pub name : String
  pub passed : Bool

-- `bound is not None and not test`, the guards that refuse a count
abbrev pub differs : Option ℕ → ℕ → Bool
differs none count = false
differs (some n) count = count != n

abbrev pub below : Option ℕ → ℕ → Bool
below none count = false
below (some n) count = ltb count n

abbrev pub above : Option ℕ → ℕ → Bool
above none count = false
above (some n) count = ltb n count

unfoldable pub count_matches : CountRule → (count total : ℕ) → Bool
count_matches rule count total =
    if rule.every
    then count == total && ltb 0 total
    else if differs rule.exactly count
    then false
    else if below rule.minimum count
    then false
    else not (above rule.maximum count)

module _ {K : Type 0} ⦃e : Eq K⦄ where
  -- The keys whose rule the counts of `seen` do not match.
  unfoldable pub mismatched : Dict K CountRule → List K → List K
  unfolding count_matches
  mismatched [] seen = []
  mismatched ((key, rule) ∷ rules) seen =
      let rest = mismatched rules seen in
      if count_matches rule (count key seen) (length seen) then rest else key ∷ rest

  -- What was seen and has no rule. The keys of `Counter(seen)` are its elements, once each.
  unfoldable pub unexpected : Dict K CountRule → List K → List K
  unexpected rules seen = filter (λ key. is_none (lookup key rules)) seen

  -- `not problems`
  unfoldable pub no_problems : Dict K CountRule → List K → Bool
  unfolding mismatched unexpected
  no_problems rules seen = is_empty (mismatched rules seen) && is_empty (unexpected rules seen)

unfoldable pub evaluate_statuses : ApplicationExpectations → List ℕ → CheckResult
unfolding no_problems
evaluate_statuses expectations statuses = record {
  name = "HTTP statuses";
  passed = no_problems expectations.statuses statuses;
}

unfoldable pub evaluate_states : ApplicationExpectations → List String → Option CheckResult
unfolding no_problems
evaluate_states expectations states =
    if is_empty expectations.states
    then none
    else some (record { name = "order states"; passed = no_problems expectations.states states })

-- One entry of an order's compensation.
pub record CompensationStep : Type 0 where
  pub action : String
  pub status : Option String

pub record Order : Type 0 where
  pub order_id : String
  pub state : String
  pub compensation : List CompensationStep

-- The actions that succeeded, in order.
unfoldable pub done : List CompensationStep → List String
done steps = map (λ step. step.action) (filter (λ step. step.status == some "Succeeded") steps)

abbrev pub compensation_result : Option (List String) → List Order → Option CheckResult
compensation_result none failed_orders = none
compensation_result (some required) failed_orders = some (record {
  name = "compensation";
  passed =
      all (λ order. done order.compensation == required) failed_orders
      && (not (is_empty failed_orders) || is_empty required);
})

unfoldable pub evaluate_compensation : ApplicationExpectations → List Order → Option CheckResult
evaluate_compensation expectations failed_orders =
    compensation_result expectations.compensation failed_orders

abbrev pub authorizations_result : Option ℕ → Dict String ℕ → Option CheckResult
authorizations_result none per_order = none
authorizations_result (some n) per_order = some (record {
  name = "payment authorizations";
  passed = all (λ entry. entry.1 == n) per_order && not (is_empty per_order);
})

unfoldable pub evaluate_authorizations :
    ApplicationExpectations → Dict String ℕ → Option CheckResult
evaluate_authorizations expectations per_order =
    authorizations_result expectations.authorizations_per_order per_order
