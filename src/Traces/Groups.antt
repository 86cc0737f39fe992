-- ===== src/Traces/Groups.antt =====
-- Grouping puts each span into the trace of its id, and orders the spans by their start.
use kubernetes_distributed_t.Common.Sort.{sort_by}
use kubernetes_distributed_t.Common.{
  refl, List, String, [], filter, nat_eq, option_eq, string_eq, ◌++◌, ◌==◌, ◌∷◌, ◌≡◌, ap, arith,
  sym, ◌∙◌, if◌then◌else◌, Bool-cases, inl, eq_iff, inr, map,
}
use kubernetes_distributed_t.Common.Dict.{Dict, lookup, lookup-insert}
use mathlib.Core.Option.{get_or}
use kubernetes_distributed_t.Traces.{
  Span, grouped_from, add_span, Trace, sort_by, group_traces, starts_by, to_trace,
}

-- The spans with a trace id, in the order given.
abbrev pub spans_of : String → List Span → List Span
spans_of id spans = filter (λ span. span.trace_id == id) spans

append_nil : {A : Type 0} (xs : List A) → xs ++ [] ≡ xs
append_nil [] = refl
append_nil (x ∷ xs) = ap (λ ys. x ∷ ys) (append_nil xs)

append_assoc : {A : Type 0} (xs ys zs : List A) → (xs ++ ys) ++ zs ≡ xs ++ (ys ++ zs)
append_assoc [] ys zs = refl
append_assoc (x ∷ xs) ys zs = ap (λ ws. x ∷ ws) (append_assoc xs ys zs)

add_span_lem :
    (id : String) (grouped : Dict String (List Span)) (span : Span)
    → get_or (lookup id (add_span grouped span)) []
      ≡ get_or (lookup id grouped) [] ++ spans_of id (span ∷ [])
add_span_lem id grouped span =
    rw
      (lookup-insert span.trace_id id (get_or (lookup span.trace_id grouped) [] ++ span ∷ [])
        grouped)
      (elim (Bool-cases (span.trace_id == id)) [
        | inl same ↦ rw same (rw (← (eq_iff span.trace_id id).0 same) refl)
        | inr other ↦ rw other (sym (append_nil _))
      ])

spans_of-append :
    (id : String) (xs ys : List Span) → spans_of id (xs ++ ys) ≡ spans_of id xs ++ spans_of id ys
spans_of-append id [] ys = refl
spans_of-append id (x ∷ xs) ys = ground (arith, spans_of-append id xs ys)

grouped_from_lem :
    (id : String) (grouped : Dict String (List Span)) (spans : List Span)
    → get_or (lookup id (grouped_from grouped spans)) []
      ≡ get_or (lookup id grouped) [] ++ spans_of id spans
unfolding grouped_from
grouped_from_lem id grouped [] = sym (append_nil _)
grouped_from_lem id grouped (span ∷ spans) =
    grouped_from_lem id (add_span grouped span) spans
    ∙ (ap (λ xs. xs ++ spans_of id spans) (add_span_lem id grouped span)
        ∙ (append_assoc (get_or (lookup id grouped) []) (spans_of id (span ∷ []))
              (spans_of id spans)
            ∙ ap (λ xs. get_or (lookup id grouped) [] ++ xs)
                (sym (spans_of-append id (span ∷ []) spans))))

-- The spans of the trace with an id; none if there is no such trace.
unfoldable pub spans_in : List Trace → String → List Span
spans_in [] id = []
spans_in (trace ∷ traces) id = if trace.trace_id == id then trace.spans else spans_in traces id

spans_in-map :
    (id : String) (grouped : Dict String (List Span))
    → spans_in (map to_trace grouped) id ≡ sort_by starts_by (get_or (lookup id grouped) [])
unfolding spans_in sort_by
spans_in-map id [] = refl
spans_in-map id (entry ∷ grouped) = ground (arith, spans_in-map id grouped)

-- The trace of an id has exactly the given spans with that id, ordered by their start; spans that
-- start together keep the order given.
pub group_traces_lem :
    (spans : List Span) (id : String)
    → spans_in (group_traces spans) id ≡ sort_by starts_by (spans_of id spans)
unfolding group_traces
group_traces_lem spans id =
    spans_in-map id (grouped_from [] spans) ∙ ap (sort_by starts_by) (grouped_from_lem id [] spans)
