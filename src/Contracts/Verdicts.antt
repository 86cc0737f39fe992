-- ===== src/Contracts/Verdicts.antt =====
-- What `verify` writes into the record.
use kubernetes_distributed_t.Schema.{TelemetryExpectations}
use kubernetes_distributed_t.Contracts.Logic.{Clean}
use kubernetes_distributed_t.Contracts.Verify.{
  add_findings, add_notes, conclude, contract_of, decision_wait, verify, finish, run_contract,
}
use kubernetes_distributed_t.Contracts.{
  Backend, Context, Contract, Finding, Library, State, no_findings, noted,
}
use kubernetes_distributed_t.Records.{RunRecord, Check, add_check, has_passed}
use kubernetes_distributed_t.Common.{
  All, Bool, List, String, [], is_empty, nat_eq, option_eq, some, string_eq, true, ◌↔◌, ◌∷◌, ◌≡◌,
  ◌≢◌, all_iff, append-All, is_empty_iff, false, if_holds, Option, arith, All-append, subst, none,
  refl,
}
use kubernetes_distributed_t.Common.Dict.{Dict}
use kubernetes_distributed_t.Common.Exec.{ok, Result, raised}

-- Every check so far passed.
abbrev pub AllPassed : RunRecord → Type 0
AllPassed r = All (λ (c : Check). c.passed ≡ true) r.checks

pub has_passed_iff : (r : RunRecord) → (has_passed r ≡ true) ↔ ((r.checks ≢ []) × AllPassed r)
unfolding has_passed
has_passed_iff r =
    let each = all_iff (λ (c : Check). c.passed) r.checks in
    let empty = is_empty_iff r.checks in ground (arith, each, empty)

snoc-AllPassed :
    (name layer : String) (verdict : Bool) (r : RunRecord)
    → AllPassed (add_check name verdict layer r) ↔ (AllPassed r × (verdict ≡ true))
unfolding add_check
snoc-AllPassed name layer verdict r = (
  λ h. let (old, new) = append-All (λ (c : Check). c.passed ≡ true) r.checks _ h in (old, new.0),
  λ (old, new). All-append (λ (c : Check). c.passed ≡ true) r.checks _ old (new, tt),
)

add_notes-AllPassed :
    (notes : Dict String (List String)) (r : RunRecord)
    → AllPassed (add_notes notes r)
    → AllPassed r
unfolding add_notes
add_notes-AllPassed [] r h = h
add_notes-AllPassed ((name, noted) ∷ notes) r h =
    ((snoc-AllPassed name "telemetry" true r).0 (add_notes-AllPassed notes _ h)).0

add_findings-AllPassed :
    (problems : Dict String (List (String × Finding))) (r : RunRecord)
    → AllPassed (add_findings problems r)
    → AllPassed r × Clean problems
unfolding add_findings
add_findings-AllPassed [] r h = (h, tt)
add_findings-AllPassed ((name, found) ∷ problems) r h =
    let (all_before, clean) = add_findings-AllPassed problems _ h in
    let (earlier, none_found) = (snoc-AllPassed name "telemetry" (is_empty found) r).0 all_before in
    (earlier, ((is_empty_iff found).0 none_found, clean))

false_is_not_true : ¬ (false ≡ true)
false_is_not_true h = cc

-- If every check passes after the conclusion, every check passed before it, and the contract made
-- a check and found nothing wrong.
conclude-AllPassed :
    (c : Context) (r : RunRecord)
    → AllPassed (conclude c r)
    → AllPassed r × Clean c.problems × (c.problems ≢ [])
unfolding conclude
conclude-AllPassed c r h =
    let added = add_notes c.notes (add_findings c.problems r) in
    let goal =
      λ (after : RunRecord). AllPassed after → AllPassed r × Clean c.problems × (c.problems ≢ []) in
    if_holds goal (is_empty c.problems) (add_check "telemetry contract" false "telemetry" added)
      added
      (λ none_made all_after. absurd (
        false_is_not_true
          ((snoc-AllPassed "telemetry contract" "telemetry" false added).0 all_after).1))
      (λ made all_after.
        let (before, clean) =
          add_findings-AllPassed c.problems r (add_notes-AllPassed c.notes _ all_after) in
        (before, clean, λ none_made. let empty = (is_empty_iff c.problems).1 none_made in cc))
      h

module _ {S : Type 0} (b : Backend S) (library : Library) where
  finish-AllPassed :
      (r after : RunRecord) (p : Result (Unit {0}) × State S)
      → (finish b library r p).0 ≡ ok after
      → AllPassed after
      → (w : State S) × (p ≡ (ok tt, w))
        × Clean w.context.problems
        × (w.context.problems ≢ [])
        × AllPassed r
  finish-AllPassed r after (ok u, w) e h =
      let same : after ≡ conclude w.context r = cc in
      let (before, clean, made) = conclude-AllPassed w.context r (subst AllPassed same h) in
      (w, refl, clean, made, before)
  finish-AllPassed r after (raised x, w) e h = absurd (cc)

  run_contract-AllPassed :
      (o : Option (Contract S (Unit {0}))) (r after : RunRecord) (s : S)
      → (run_contract b library o r s).0 ≡ ok after
      → AllPassed after
      → (contract : Contract S (Unit {0})) × (o ≡ some contract)
        × (w : State S) × (contract
              (record { context = no_findings; outside = decision_wait b library r s })
            ≡ (ok tt, w))
        × Clean w.context.problems
        × (w.context.problems ≢ [])
        × AllPassed r
  run_contract-AllPassed none r after s e h =
      let same : after ≡ add_check "telemetry contract" false "telemetry" r = cc in
      absurd (
        false_is_not_true
          ((snoc-AllPassed "telemetry contract" "telemetry" false r).0 (subst AllPassed same h)).1)
  run_contract-AllPassed (some contract) r after s e h =
      let (w, ran, clean, made, before) =
        finish-AllPassed r after
          (contract (record { context = no_findings; outside = decision_wait b library r s })) e
          h in
      (contract, refl, w, ran, clean, made, before)

  -- If the verification of a contract returns, and every check of the record passes then, the
  -- contract is a known one, it returned, it made a check and it found nothing wrong, and every
  -- check passed before.
  pub verify-AllPassed :
      (spec : TelemetryExpectations) (r after : RunRecord) (s : S)
      → (verify b library (some spec) r s).0 ≡ ok after
      → AllPassed after
      → (contract : Contract S (Unit {0})) × (contract_of b library spec.contract r spec.parameters
          ≡ some contract)
        × (w : State S) × (contract
              (record { context = no_findings; outside = decision_wait b library r s })
            ≡ (ok tt, w))
        × Clean w.context.problems
        × (w.context.problems ≢ [])
        × AllPassed r
  unfolding verify
  verify-AllPassed spec r after s returned passed_all =
      run_contract-AllPassed (contract_of b library spec.contract r spec.parameters) r after s
        returned passed_all
