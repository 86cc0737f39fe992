-- ===== src/TraceChecks/Once.antt =====
-- The only span of a name: `_single` and `transaction`.
use kubernetes_distributed_t.Common.{
  List, [], arith, nat_eq, option_eq, some, string_eq, ◌↔◌, ◌∷◌, ◌≡◌, String, ◌==◌, eq_iff, filter,
}
use kubernetes_distributed_t.Traces.{Span, Trace, named}
use kubernetes_distributed_t.TraceChecks.{single, only, named}
use kubernetes_distributed_t.Common.Selected.{Chosen, filter-Chosen_iff}
use kubernetes_distributed_t.TraceChecks.{transaction}

-- The trace has one span of the name, which is this one.
abbrev pub Once : Trace → (name : String) → Span → Type 0
Once trace name span = Chosen (λ (s : Span). s.name ≡ name) trace.spans (span ∷ [])

only_iff : (spans : List Span) (span : Span) → (only spans ≡ some span) ↔ (spans ≡ span ∷ [])
only_iff [] span = ground arith
only_iff (x ∷ []) span = ground arith
only_iff (x ∷ y ∷ spans) span = ground arith

pub single_iff :
    (trace : Trace) (name : String) (span : Span)
    → (single trace name ≡ some span) ↔ Once trace name span
unfolding single named
single_iff trace name span =
    let chosen =
      filter-Chosen_iff (λ (s : Span). s.name == name) (λ s. eq_iff s.name name) trace.spans
        (span ∷ []) in
    let alone = only_iff (filter (λ (s : Span). s.name == name) trace.spans) span in
    (λ e. chosen.0 (alone.0 e), λ c. alone.1 (chosen.1 c))

pub transaction_iff :
    (trace : Trace) (tx : Span) → (transaction trace ≡ some tx) ↔ Once trace "order.transaction" tx
unfolding transaction
transaction_iff trace tx = single_iff trace "order.transaction" tx
