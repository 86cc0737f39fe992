-- ===== src/Expectations/Tests.antt =====
-- A scenario where half of the orders fail and are compensated.
use kubernetes_distributed_t.Common.{
  list_eq, All, String, [], false, nat_eq, none, option_eq, refl, some, string_eq, true, ℕ, ◌↔◌,
  ◌∷◌, ◌≡◌, ◌≢◌, ◌⊎◌, List,
}
use kubernetes_distributed_t.Schema.{CountRule, ApplicationExpectations}
use kubernetes_distributed_t.Expectations.{
  Order, count_matches, evaluate_authorizations, evaluate_compensation, evaluate_statuses,
  mismatched, no_problems, unexpected, Dict,
}
use kubernetes_distributed_t.Expectations.Verdicts.{
  Compensated, Expected, evaluate_authorizations_iff, evaluate_compensation_iff,
  evaluate_statuses_iff, passing,
}

abbrev once : CountRule
once = record { exactly = some 1; minimum = none; maximum = none; every = false }

abbrev both_steps : List String
both_steps = "VoidPayment" ∷ "ReleaseInventory" ∷ []

abbrev authorized : Dict String ℕ
authorized = ("o1", 1) ∷ []

abbrev expected : ApplicationExpectations
expected = record {
  statuses = (201, once) ∷ (409, once) ∷ [];
  states = [];
  compensation = some both_steps;
  authorizations_per_order = some 1;
}

abbrev failed_order : Order
failed_order = record {
  order_id = "o1";
  state = "ShippingFailed";
  compensation =
      record { action = "VoidPayment"; status = some "Succeeded" }
      ∷ record { action = "ReleaseInventory"; status = some "Succeeded" }
      ∷ [];
}

both_statuses : (evaluate_statuses expected (409 ∷ 201 ∷ [])).passed ≡ true
unfolding evaluate_statuses no_problems mismatched unexpected count_matches
both_statuses = refl

evaluate_statuses_iff_example :
    ((evaluate_statuses expected (409 ∷ 201 ∷ [])).passed ≡ true)
    ↔ Expected expected.statuses (409 ∷ 201 ∷ [])
evaluate_statuses_iff_example = evaluate_statuses_iff expected (409 ∷ 201 ∷ [])

abbrev both_failed : List Order
both_failed = failed_order ∷ []

evaluate_compensation_iff_example :
    (evaluate_compensation expected both_failed ≡ passing "compensation")
    ↔ (All (Compensated both_steps) both_failed × ((both_failed ≢ []) ⊎ (both_steps ≡ [])))
evaluate_compensation_iff_example = evaluate_compensation_iff expected both_failed both_steps refl

evaluate_authorizations_iff_example :
    (evaluate_authorizations expected authorized ≡ passing "payment authorizations")
    ↔ (All (λ (entry : String × ℕ). entry.1 ≡ 1) authorized × (authorized ≢ []))
evaluate_authorizations_iff_example = evaluate_authorizations_iff expected authorized 1 refl
