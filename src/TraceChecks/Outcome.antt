-- ===== src/TraceChecks/Outcome.antt =====
-- What the transaction span says of the outcome.
use kubernetes_distributed_t.Common.{
  last, list_eq, Bool, List, Option, [], arith, eq_iff, if◌then◌else◌, nat_eq, none, not, option_eq,
  refl, some, string_eq, true, ◌!=◌, ◌&&◌, ◌==◌, ◌↔◌, ◌∷◌, ◌≡◌, String, subst, ◌++◌, map, false,
  list_beq_iff,
}
use kubernetes_distributed_t.Traces.{value_eq, Event, Span, Trace, text}
use kubernetes_distributed_t.Common.Selected.{Selected, Selected_iff}
use kubernetes_distributed_t.TraceChecks.Once.{Once, transaction_iff}
use kubernetes_distributed_t.TraceChecks.{
  Problem, error_marked, error_not_marked, no_transaction, transaction, state_changes, problem_if,
  Value, wrong_path, lookup, wrong_state,
}

abbrev pub error_problems : Option Span → Bool → List Problem
error_problems none technical_failure = no_transaction ∷ []
error_problems (some tx) technical_failure =
    if technical_failure && tx.status != "ERROR"
    then error_not_marked ∷ []
    else if not technical_failure && tx.status == "ERROR"
    then error_marked ∷ []
    else []

unfoldable pub error_marking : Trace → Bool → List Problem
unfolding transaction
error_marking trace technical_failure = error_problems (transaction trace) technical_failure

error_problems_iff :
    (o : Option Span) (technical_failure : Bool)
    → (error_problems o technical_failure ≡ [])
      ↔ ((tx : Span) × (o ≡ some tx) × ((tx.status ≡ "ERROR") ↔ (technical_failure ≡ true)))
error_problems_iff none technical_failure = (λ h. cc, λ h. cc)
error_problems_iff (some tx) technical_failure = (
  λ h. (tx, refl, ground (arith, eq_iff tx.status "ERROR")),
  λ (other, e, h). ground (arith, eq_iff tx.status "ERROR", h, e),
)

-- The check of the marking passes exactly if there is one transaction span, and it is marked as
-- an error exactly where the failure was technical.
pub error_marking_iff :
    (trace : Trace) (technical_failure : Bool)
    → (error_marking trace technical_failure ≡ []) ↔ (
        (tx : Span) × (transaction trace ≡ some tx)
        × ((tx.status ≡ "ERROR") ↔ (technical_failure ≡ true)))
unfolding error_marking
error_marking_iff trace technical_failure = error_problems_iff (transaction trace) technical_failure

abbrev pub as_values : List String → List (Option Value)
as_values path = map (λ state. some (text state)) path

-- `none` is the IndexError of `expected_path[-1]` on an empty path.
abbrev pub path_problems :
    Span → (path : List String) → (final : Option String) → Option (List Problem)
path_problems tx path none = none
path_problems tx path (some final) = some (
    problem_if (state_changes tx != as_values path) wrong_path
    ++ problem_if (lookup "order.state" tx.attributes != some (text final)) wrong_state)

abbrev pub state_problems : Option Span → List String → Option (List Problem)
state_problems none path = some (no_transaction ∷ [])
state_problems (some tx) path = path_problems tx path (last path)

unfoldable pub state_path : Trace → List String → Option (List Problem)
unfolding transaction state_changes
state_path trace expected_path = state_problems (transaction trace) expected_path

-- The values of `order.state.to` on the events named `order.state_changed` are the path's states,
-- in their order, and the transaction's own state is the last one.
pub record Walked (tx : Span) (path : List String) (final : String) : Type 0 where
  pub changes :
      Selected
        (λ (event : Event). event.name ≡ "order.state_changed")
        (λ event. lookup "order.state.to" event.attributes)
        tx.events
        (as_values path)
  pub final_state : lookup "order.state" tx.attributes ≡ some (text final)

state_changes_iff :
    (tx : Span) (values : List (Option Value))
    → (state_changes tx ≡ values)
      ↔ Selected
          (λ (event : Event). event.name ≡ "order.state_changed")
          (λ event. lookup "order.state.to" event.attributes)
          tx.events
          values
unfolding state_changes
state_changes_iff tx values =
    Selected_iff (λ (event : Event). lookup "order.state.to" event.attributes)
      (λ event. event.name == "order.state_changed")
      (λ event. eq_iff event.name "order.state_changed") tx.events values

two_problems_iff :
    (b c : Bool) (p q : Problem)
    → (◌≡◌ {A = Option (List Problem)} (some (problem_if b p ++ problem_if c q)) (some []))
      ↔ ((b ≡ false) × (c ≡ false))
two_problems_iff b c p q = ground arith

path_problems_iff :
    (tx : Span) (path : List String) (final : String)
    → (path_problems tx path (some final) ≡ some []) ↔ Walked tx path final
path_problems_iff tx path final =
    let parts =
      two_problems_iff (state_changes tx != as_values path)
        (lookup "order.state" tx.attributes != some (text final)) wrong_path wrong_state in
    let listed = list_beq_iff (state_changes tx) (as_values path) in
    let changes = state_changes_iff tx (as_values path) in
    let state = option_eq.beq_iff (lookup "order.state" tx.attributes) (some (text final)) in
    (
      λ h. record {
        changes = changes.0 (ground (arith, parts.0 h, listed));
        final_state = ground (arith, parts.0 h, state);
      },
      λ w.
          parts.1
            (ground (arith, changes.1 w.changes, listed), ground (arith, w.final_state, state)),
    )

-- The check of a path that is not empty passes exactly if there is one transaction span, whose
-- events order.state_changed name the states of the path in order, and whose state is the path's
-- last.
pub state_path_iff :
    (trace : Trace) (expected_path : List String) (final : String)
    → last expected_path ≡ some final
    → (state_path trace expected_path ≡ some [])
      ↔ ((tx : Span) × Once trace "order.transaction" tx × Walked tx expected_path final)
unfolding state_path
state_path_iff trace expected_path final h =
    let found = go (transaction trace) refl in
    (
      λ p. let (tx, e, walked) = found.0 p in (tx, (transaction_iff trace tx).0 e, walked),
      λ (tx, once, walked). found.1 (tx, (transaction_iff trace tx).1 once, walked),
    )
  where
    go :
        (o : Option Span)
        → transaction trace ≡ o
        → (state_problems o expected_path ≡ some [])
          ↔ ((tx : Span) × (o ≡ some tx) × Walked tx expected_path final)
    go none e = (λ p. cc, λ p. cc)
    go (some tx) e = (
      λ p. (tx, refl, (path_problems_iff tx expected_path final).0 (rw h at p)),
      λ (u, same, w).
          let same' : u ≡ tx = ground arith in
          rw h (
            (path_problems_iff tx expected_path final).1
              (subst (λ x. Walked x expected_path final) same' w)),
    )
