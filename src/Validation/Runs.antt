-- ===== src/Validation/Runs.antt =====
-- A run of a suite reports every check, and passes exactly if every check returned.
use mathlib.Core.Option.{get_or}
use kubernetes_distributed_t.Common.{
  Bool, List, Option, String, [], arith, false, nat_eq, none, option_eq, refl, some, string_eq,
  true, ◌↔◌, ◌∙◌, ◌∷◌, ◌≡◌, ◌≢◌,
}
use kubernetes_distributed_t.Common.Exec.{Error, Exec, Result, keyboard_interrupt, ok, raised}
use kubernetes_distributed_t.Validation.{
  CheckOutcome, Checks, Suite, after_cleanup, clean_up, run_checks, run_suite, summarize,
  take_answer, outcome,
}

abbrev pub returned : {A : Type 0} → Result A → Bool
returned (ok a) = true
returned (raised e) = false

module _ {S : Type 0} where
  -- Every check returns, each run on the state that the one before it left.
  abbrev pub AllReturn : Checks S → S → Type 0
  AllReturn [] s = Unit {0}
  AllReturn ((name, function) ∷ checks) s =
      (returned (function s).0 ≡ true) × AllReturn checks (function s).1

  -- No check is interrupted, wherever it runs.
  abbrev pub Uninterrupted : Checks S → Type 0
  Uninterrupted [] = Unit {0}
  Uninterrupted ((name, function) ∷ checks) =
      ((s : S) → (function s).0 ≢ raised keyboard_interrupt) × Uninterrupted checks

  abbrev pub CleansUp : Option (Exec S (Unit {0})) → Type 0
  CleansUp none = Unit {0}
  CleansUp (some cleanup) = (s : S) → (cleanup s).0 ≢ raised keyboard_interrupt

  -- One outcome for each check, in order, that says whether the check returned.
  abbrev pub Reported : Checks S → S → List CheckOutcome → Type 0
  Reported [] s [] = Unit {0}
  Reported [] s (o ∷ outcomes) = ⊥
  Reported ((name, function) ∷ checks) s [] = ⊥
  Reported ((name, function) ∷ checks) s (o ∷ outcomes) =
      (o.name ≡ name)
      × (o.passed ≡ returned (function s).0)
      × Reported checks (function s).1 outcomes

  clean_up_lem :
      (cleanup : Option (Exec S (Unit {0}))) (r : Result (List CheckOutcome)) (s : S)
      → CleansUp cleanup
      → (clean_up cleanup (r, s)).0 ≡ r
  clean_up_lem none r s h = refl
  clean_up_lem (some cleanup) r s h = kept (cleanup s).0 (h s)
    where
      kept : (q : Result (Unit {0})) → q ≢ raised keyboard_interrupt → after_cleanup q r ≡ r
      kept q h = ground arith

  summarize_iff :
      (checks : Checks S) (s : S) (outcomes : List CheckOutcome)
      → Reported checks s outcomes
      → (summarize outcomes ≡ true) ↔ AllReturn checks s
  unfolding summarize
  summarize_iff [] s [] h = ground arith
  summarize_iff [] s (o ∷ outcomes) h = absurd h
  summarize_iff (check ∷ checks) s [] h = absurd h
  summarize_iff ((name, function) ∷ checks) s (o ∷ outcomes) (same, passed, rest) =
      ground (arith, passed, summarize_iff checks (function s).1 outcomes rest)

module _ {S : Type 0} (describe : Error → String) where
  take_answer_lem :
      (suite name : String) (r : Result (Option String)) (s : S)
      (later : Result (List CheckOutcome) × S) (outcomes : List CheckOutcome)
      → r ≢ raised keyboard_interrupt
      → later.0 ≡ ok outcomes
      → (o : CheckOutcome) × ((take_answer describe suite name r s later).0 ≡ ok (o ∷ outcomes))
        × (o.name ≡ name)
        × (o.passed ≡ returned r)
  take_answer_lem suite name r s (raised e, t) outcomes h p = cc
  take_answer_lem suite name (ok detail) s (ok os, t) outcomes h p =
      (outcome suite name true (get_or detail ""), ground (arith, p), refl, refl)
  take_answer_lem suite name (raised keyboard_interrupt) s (ok os, t) outcomes h p = absurd (h refl)
  take_answer_lem suite name (raised e) s (ok os, t) outcomes h p =
      (outcome suite name false (describe e), ground (arith, p), refl, refl)

  run_checks-Reported :
      (suite : String) (checks : Checks S) (s : S)
      → Uninterrupted checks
      → (outcomes : List CheckOutcome) × ((run_checks describe suite checks s).0 ≡ ok outcomes)
        × Reported checks s outcomes
  unfolding run_checks
  run_checks-Reported suite [] s h = ([], refl, tt)
  run_checks-Reported suite ((name, function) ∷ checks) s (steady, h) =
      let (outcomes, ran, reported) = run_checks-Reported suite checks (function s).1 h in
      let (o, answer, same, passed) =
        take_answer_lem suite name (function s).0 (function s).1
          (run_checks describe suite checks (function s).1) outcomes (steady s) ran in
      (o ∷ outcomes, answer, (same, passed, reported))

  -- A suite that is not interrupted answers one outcome for each check, in order, whatever the
  -- checks raise and whatever its cleanup raises; and its summary is good exactly if every check
  -- returned.
  pub run_suite-Reported :
      (suite : Suite S) (s : S)
      → Uninterrupted suite.checks
      → CleansUp suite.cleanup
      → (outcomes : List CheckOutcome) × ((run_suite describe suite s).0 ≡ ok outcomes)
        × Reported suite.checks s outcomes
        × ((summarize outcomes ≡ true) ↔ AllReturn suite.checks s)
  unfolding run_suite
  run_suite-Reported suite s steady clean =
      let (outcomes, ran, reported) = run_checks-Reported suite.name suite.checks s steady in
      let (r, t) = run_checks describe suite.name suite.checks s in
      (
        outcomes,
        clean_up_lem suite.cleanup r t clean ∙ ran,
        reported,
        summarize_iff suite.checks s outcomes reported,
      )
