-- ===== src/TraceChecks/Attempts.antt =====
-- Retries of a stage.
use kubernetes_distributed_t.Common.{
  list_eq, Bool, List, Option, String, [], arith, false, filter, length, list_beq_iff, ltb, map,
  nat_eq, none, option_eq, refl, some, string_eq, suc, zero, ℕ, ◌!=◌, ◌&&◌, ◌++◌, ◌+◌, ◌-◌, ◌<◌,
  ◌==◌, ◌↔◌, ◌∷◌, ◌≡◌, subst, eq_iff, ap,
}
use kubernetes_distributed_t.Common.Dict.{lookup}
use kubernetes_distributed_t.Common.Sort.{sort_by}
use kubernetes_distributed_t.Traces.{
  value_eq, Span, Trace, Value, children_of, first, integer, starts_by, Event,
}
use kubernetes_distributed_t.TraceChecks.Once.{Once, single_iff}
use kubernetes_distributed_t.TraceChecks.{
  Problem, problem_if, single, stage_missing, wrong_attempts, wrong_retry_count, wrong_retry_events,
}
use kubernetes_distributed_t.Common.Selected.{Chosen, filter-filter, filter-Chosen_iff}

-- The client spans below a stage, by start.
unfoldable pub attempts_of : Trace → Span → List Span
unfolding sort_by children_of
attempts_of trace stage =
    sort_by starts_by (filter (λ child. child.kind == "CLIENT") (children_of trace stage))

abbrev pub attempts_at : Trace → Option Span → List Span
attempts_at trace none = []
attempts_at trace (some stage) = attempts_of trace stage

unfoldable pub attempts : Trace → String → List Span
unfolding single attempts_of
attempts trace stage_name = attempts_at trace (single trace stage_name)

-- `list(range(first, first + n))`, as attribute values
abbrev pub range_from : (first n : ℕ) → List (Option Value)
range_from first zero = []
range_from first (suc n) = some (integer first) ∷ range_from (suc first) n

abbrev pub attempt_numbers : List Span → List (Option Value)
attempt_numbers spans = map (λ span. lookup "retry.attempt" span.attributes) spans

abbrev pub retry_events : Span → ℕ
retry_events stage = length (filter (λ event. event.name == "retry") stage.events)

abbrev pub retry_problems : Trace → (stage_name : String) → Option Span → ℕ → List Problem
retry_problems trace stage_name none expected = stage_missing stage_name ∷ []
retry_problems trace stage_name (some stage) expected =
    problem_if (attempt_numbers (attempts_of trace stage) != range_from 1 expected)
      (wrong_attempts stage_name)
    ++ (problem_if (retry_events stage + 1 != expected) (wrong_retry_events (retry_events stage))
        ++ problem_if
            (ltb 1 expected
              && lookup "retry.count" stage.attributes != some (integer (expected - 1)))
            wrong_retry_count)

unfoldable pub retries : Trace → String → ℕ → List Problem
unfolding single attempts_of
retries trace stage_name expected_attempts =
    retry_problems trace stage_name (single trace stage_name) expected_attempts

-- A stage with so many attempts, which are the client spans below it, numbered from 1 in the order
-- of their start, and a retry event and the retry count for each but the first.
pub record Tried (trace : Trace) (stage : Span) (expected : ℕ) : Type 0 where
  pub clients : List Span
  pub all_clients :
      Chosen
        (λ (child : Span). (child.parent_span_id ≡ stage.span_id) × (child.kind ≡ "CLIENT"))
        trace.spans
        clients
  pub numbered :
      map (λ (span : Span). lookup "retry.attempt" span.attributes) (sort_by starts_by clients)
      ≡ range_from 1 expected
  pub retried : List Event
  pub all_retried : Chosen (λ (event : Event). event.name ≡ "retry") stage.events retried
  pub events_match : length retried + 1 ≡ expected
  pub counted : 1 < expected → lookup "retry.count" stage.attributes ≡ some (integer (expected - 1))

pub problem_list_iff :
    (b c d : Bool) (p q r : Problem)
    → (problem_if b p ++ (problem_if c q ++ problem_if d r) ≡ [])
      ↔ ((b ≡ false) × (c ≡ false) × (d ≡ false))
problem_list_iff b c d p q r = ground arith

attempts_iff :
    (trace : Trace) (stage : Span) (clients : List Span)
    → (filter (λ child. child.kind == "CLIENT") (children_of trace stage) ≡ clients)
      ↔ Chosen
          (λ (child : Span). (child.parent_span_id ≡ stage.span_id) × (child.kind ≡ "CLIENT"))
          trace.spans
          clients
unfolding children_of
attempts_iff trace stage clients =
    let to_filter =
      filter-filter (λ (child : Span). child.kind == "CLIENT")
        (λ child. child.parent_span_id == stage.span_id) trace.spans in
    rw to_filter (
      filter-Chosen_iff
        (λ (child : Span). child.parent_span_id == stage.span_id && child.kind == "CLIENT")
        (λ child.
          ground (arith, eq_iff child.parent_span_id stage.span_id, eq_iff child.kind "CLIENT"))
        trace.spans clients)

retried_iff :
    (stage : Span) (events : List Event)
    → (filter (λ event. event.name == "retry") stage.events ≡ events)
      ↔ Chosen (λ (event : Event). event.name ≡ "retry") stage.events events
retried_iff stage events =
    filter-Chosen_iff (λ (event : Event). event.name == "retry")
      (λ event. eq_iff event.name "retry") stage.events events

-- The three tests of the check, on a stage that is there.
numbered_iff :
    (trace : Trace) (stage : Span) (clients : List Span) (n : ℕ)
    → filter (λ child. child.kind == "CLIENT") (children_of trace stage) ≡ clients
    → (attempt_numbers (attempts_of trace stage) ≡ range_from 1 n) ↔ (
        map (λ (span : Span). lookup "retry.attempt" span.attributes) (sort_by starts_by clients)
        ≡ range_from 1 n)
unfolding attempts_of
numbered_iff trace stage clients n e = rw e (λ h. h, λ h. h)

-- The three tests of the check, on a stage that is there.
tests_iff :
    (trace : Trace) (stage_name : String) (stage : Span) (n : ℕ)
    → (retry_problems trace stage_name (some stage) n ≡ []) ↔ Tried trace stage n
tests_iff trace stage_name stage n =
    let numbers = attempt_numbers (attempts_of trace stage) in
    let clients = filter (λ (child : Span). child.kind == "CLIENT") (children_of trace stage) in
    let retried = filter (λ (event : Event). event.name == "retry") stage.events in
    let parts =
      problem_list_iff (numbers != range_from 1 n) (retry_events stage + 1 != n)
        (ltb 1 n && lookup "retry.count" stage.attributes != some (integer (n - 1)))
        (wrong_attempts stage_name) (wrong_retry_events (retry_events stage)) wrong_retry_count in
    let decided = list_beq_iff numbers (range_from 1 n) in
    let counted =
      option_eq.beq_iff (lookup "retry.count" stage.attributes) (some (integer (n - 1))) in
    (
      λ h. record {
        clients = clients;
        all_clients = (attempts_iff trace stage clients).0 refl;
        numbered = (numbered_iff trace stage clients n refl).0 (ground (arith, parts.0 h, decided));
        retried = retried;
        all_retried = (retried_iff stage retried).0 refl;
        events_match = ground (arith, parts.0 h);
        counted = ground (arith, parts.0 h, counted);
      },
      λ t.
          let same = (attempts_iff trace stage t.clients).1 t.all_clients in
          let numbered = (numbered_iff trace stage t.clients n same).1 t.numbered in
          let events : retry_events stage ≡ length t.retried =
            ap length ((retried_iff stage t.retried).1 t.all_retried) in
          parts.1 (
            ground (arith, numbered, decided),
            ground (arith, t.events_match, events),
            ground (arith, t.counted, counted),
          ),
    )

retry_problems_iff :
    (trace : Trace) (stage_name : String) (o : Option Span) (n : ℕ)
    → (retry_problems trace stage_name o n ≡ [])
      ↔ ((stage : Span) × (o ≡ some stage) × Tried trace stage n)
retry_problems_iff trace stage_name none n = (λ h. cc, λ h. cc)
retry_problems_iff trace stage_name (some stage) n = (
  λ h. (stage, refl, (tests_iff trace stage_name stage n).0 h),
  λ (s, e, t).
      let same : s ≡ stage = ground arith in
      (tests_iff trace stage_name stage n).1 (subst (λ x. Tried trace x n) same t),
)

-- The check of retries passes exactly if the stage appears once, its client spans below carry the
-- numbers from 1 to the expected number of attempts in the order of their start, its retry events
-- are one fewer, and, where more than one attempt is expected, its retry count is one less too.
pub retries_iff :
    (trace : Trace) (stage_name : String) (expected_attempts : ℕ)
    → (retries trace stage_name expected_attempts ≡ [])
      ↔ ((stage : Span) × Once trace stage_name stage × Tried trace stage expected_attempts)
unfolding retries
retries_iff trace stage_name expected_attempts =
    let found = retry_problems_iff trace stage_name (single trace stage_name) expected_attempts in
    (
      λ h.
          let (stage, e, tried) = found.0 h in
          (stage, (single_iff trace stage_name stage).0 e, tried),
      λ (stage, once, tried). found.1 (stage, (single_iff trace stage_name stage).1 once, tried),
    )
