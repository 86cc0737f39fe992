-- ===== src/Validation.antt =====
-- Validation suites (automation/src/txplatform/validation/framework.py): a check is a function that
-- may raise, run on the state that the checks before it left. Printing and timing are left out.
pub mod Runs
mod Tests
use mathlib.Core.Option.{get_or}
use kubernetes_distributed_t.Common.{
  Bool, List, Option, String, [], false, filter, is_empty, nat_eq, none, not, option_eq, some,
  string_eq, true, ◌∷◌,
}
use kubernetes_distributed_t.Common.Exec.{Error, Exec, Result, keyboard_interrupt, ok, raised}

pub record CheckOutcome : Type 0 where
  pub suite : String
  pub name : String
  pub passed : Bool
  pub detail : String

abbrev pub Checks : Type 0 → Type 0
Checks S = List (String × Exec S (Option String))

pub record Suite (S : Type 0) : Type 0 where
  pub name : String
  pub checks : Checks S
  pub cleanup : Option (Exec S (Unit {0}))

abbrev pub outcome : (suite name : String) → Bool → String → CheckOutcome
outcome suite name passed detail = record {
  suite = suite;
  name = name;
  passed = passed;
  detail = detail;
}

-- `finally: if suite.cleanup: …`, where an Exception of the cleanup is dropped.
abbrev pub after_cleanup :
    Result (Unit {0}) → Result (List CheckOutcome) → Result (List CheckOutcome)
after_cleanup (raised keyboard_interrupt) r = raised keyboard_interrupt
after_cleanup _ r = r

module _ {S : Type 0} where
  abbrev pub add_outcome :
      CheckOutcome → Result (List CheckOutcome) × S → Result (List CheckOutcome) × S
  add_outcome o (ok outcomes, s) = (ok (o ∷ outcomes), s)
  add_outcome o (raised e, s) = (raised e, s)

  abbrev pub clean_up :
      Option (Exec S (Unit {0})) → Result (List CheckOutcome) × S → Result (List CheckOutcome) × S
  clean_up none (r, s) = (r, s)
  clean_up (some cleanup) (r, s) = let (q, t) = cleanup s in (after_cleanup q r, t)

-- `describe` is the text of an exception.
module _ {S : Type 0} (describe : Error → String) where
  -- What the loop does with a check's answer; `later` is the rest of the loop. A
  -- KeyboardInterrupt is no Exception, and ends the loop.
  abbrev pub take_answer :
      (suite name : String)
      → Result (Option String)
      → S
      → Result (List CheckOutcome) × S
      → Result (List CheckOutcome) × S
  take_answer suite name (ok detail) s later =
      add_outcome (outcome suite name true (get_or detail "")) later
  take_answer suite name (raised keyboard_interrupt) s later = (raised keyboard_interrupt, s)
  take_answer suite name (raised e) s later =
      add_outcome (outcome suite name false (describe e)) later

  unfoldable pub run_checks : (suite : String) → Checks S → Exec S (List CheckOutcome)
  run_checks suite [] s = (ok [], s)
  run_checks suite ((name, function) ∷ checks) s =
      let later = run_checks suite checks (function s).1 in
      take_answer suite name (function s).0 (function s).1 later

  unfoldable pub run_suite : Suite S → Exec S (List CheckOutcome)
  unfolding run_checks
  run_suite suite s = clean_up suite.cleanup (run_checks suite.name suite.checks s)

-- `summarize`: whether nothing failed.
unfoldable pub summarize : List CheckOutcome → Bool
summarize outcomes = is_empty (filter (λ o. not o.passed) outcomes)
