-- ===== src/TraceChecks/Compensating.antt =====
-- When no compensation span starts too early: the end of `stage_order`.
use kubernetes_distributed_t.Common.{
  All, List, [], arith, nat_eq, option_eq, string_eq, ℕ, ◌↔◌, ◌∷◌, ◌≡◌, ◌≤◌, String, ◌==◌, eq_iff,
  filter, Bool-cases, append-All, All-append, inl, inr,
}
use kubernetes_distributed_t.Traces.{Span, Trace, named}
use kubernetes_distributed_t.TraceChecks.{
  compensation_stages, early, last_end, named_any, stages, named,
}

-- Every span that has one of the names has `P`.
abbrev pub AllNamed : (names : List String) → (Span → Type 0) → List Span → Type 0
AllNamed names P spans = All (λ name. All (λ (span : Span). span.name ≡ name → P span) spans) names

filter-All_iff :
    (P : Span → Type 0) (name : String) (spans : List Span)
    → All P (filter (λ span. span.name == name) spans)
      ↔ All (λ (span : Span). span.name ≡ name → P span) spans
filter-All_iff P name [] = (λ h. tt, λ h. tt)
filter-All_iff P name (span ∷ spans) =
    let rest = filter-All_iff P name spans in
    let same = eq_iff span.name name in
    elim (Bool-cases (span.name == name)) [
      | inl same_name ↦
          rw same_name (λ h. (λ e. h.0, rest.0 h.1), λ h. (h.0 (same.0 same_name), rest.1 h.1))
      | inr other ↦
          rw other (λ h. (λ e. absurd (ground (arith, same.1 e, other)), rest.0 h), λ h. rest.1 h.1)
    ]

named_any_iff :
    (P : Span → Type 0) (trace : Trace) (names : List String)
    → All P (named_any trace names) ↔ AllNamed names P trace.spans
unfolding named_any named
named_any_iff P trace [] = (λ h. tt, λ h. tt)
named_any_iff P trace (name ∷ names) =
    let chosen = filter (λ (span : Span). span.name == name) trace.spans in
    let here = filter-All_iff P name trace.spans in
    let rest = named_any_iff P trace names in
    (
      λ h.
          let (left, right) = append-All P chosen (named_any trace names) h in
          (here.0 left, rest.0 right),
      λ h. All-append P chosen (named_any trace names) (here.1 h.0) (rest.1 h.1),
    )

All-same :
    {P Q : Span → Type 0} (spans : List Span)
    → ((span : Span) → P span ↔ Q span)
    → All P spans ↔ All Q spans
All-same [] h = (λ x. tt, λ x. tt)
All-same (span ∷ spans) h =
    let rest = All-same spans h in
    (λ x. ((h span).0 x.0, rest.0 x.1), λ x. ((h span).1 x.0, rest.1 x.1))

last_end_iff :
    (spans : List Span) (t : ℕ)
    → (last_end spans ≤ t) ↔ All (λ (span : Span). span.end_unix_nano ≤ t) spans
unfolding last_end
last_end_iff [] t = ground arith
last_end_iff (span ∷ spans) t = ground (arith, last_end_iff spans t)

early_iff :
    (limit : ℕ) (spans : List Span)
    → (early limit spans ≡ []) ↔ All (λ (span : Span). limit ≤ span.start_unix_nano) spans
early_iff limit [] = ground arith
early_iff limit (span ∷ spans) = ground (arith, early_iff limit spans)

late_iff :
    (business : List Span) (spans : List Span)
    → All (λ (span : Span). last_end business ≤ span.start_unix_nano) spans
      ↔ All
          (λ (late : Span).
            All (λ (stage : Span). stage.end_unix_nano ≤ late.start_unix_nano) business)
          spans
late_iff business [] = ground arith
late_iff business (span ∷ spans) =
    ground (arith, late_iff business spans, last_end_iff business span.start_unix_nano)

-- Every compensation starts when every stage has ended.
abbrev pub Compensated : Trace → Type 0
Compensated trace =
    AllNamed compensation_stages
      (λ late. AllNamed stages (λ stage. stage.end_unix_nano ≤ late.start_unix_nano) trace.spans)
      trace.spans

pub early-Compensated_iff :
    (trace : Trace)
    → (early (last_end (named_any trace stages)) (named_any trace compensation_stages) ≡ [])
      ↔ Compensated trace
early-Compensated_iff trace =
    let business = named_any trace stages in
    let late = named_any trace compensation_stages in
    let Ends = λ (late stage : Span). stage.end_unix_nano ≤ late.start_unix_nano in
    let each = All-same late (λ (span : Span). named_any_iff (Ends span) trace stages) in
    let all_late =
      named_any_iff (λ (span : Span). AllNamed stages (Ends span) trace.spans) trace
        compensation_stages in
    (
      λ h. all_late.0 (each.0 ((late_iff business late).0 ((early_iff _ late).0 h))),
      λ h. (early_iff _ late).1 ((late_iff business late).1 (each.1 (all_late.1 h))),
    )
