-- ===== src/Traces.antt =====
-- Traces (automation/src/txplatform/traces.py): spans, their relations and their grouping. The
-- parsing of JSON is not modelled. A set of texts is a list; times are natural numbers.
pub mod Groups
use mathlib.Core.Option.{get_or}
use kubernetes_distributed_t.Common.{
  Bool, List, Option, String, [], contains, filter, if◌then◌else◌, leb, ltb, map, nat_eq, none, not,
  option_eq, some, string_eq, true, ℕ, ◌&&◌, ◌++◌, ◌==◌, ◌||◌, ◌∷◌, false, Eq, ◌≡◌, ◌↔◌, arith,
  eq_iff,
}
use kubernetes_distributed_t.Common.Dict.{Dict, insert, lookup}
use kubernetes_distributed_t.Common.Sort.{sort_by}

-- What `attribute_value` gives. Numbers that the checks read are natural; `other_value` is any
-- other value, by its JSON text.
pub data Value : Type 0 where
  text : String → Value
  boolean : Bool → Value
  integer : ℕ → Value
  other_value : String → Value

-- Python's `==`, but for a truth value and a number.
abbrev pub value_beq : Value → Value → Bool
value_beq (text s) (text t) = s == t
value_beq (boolean a) (boolean b) = if a then b else not b
value_beq (integer m) (integer n) = m == n
value_beq (other_value s) (other_value t) = s == t
value_beq _ _ = false

pub value_beq_iff : (v w : Value) → (value_beq v w ≡ true) ↔ (v ≡ w)
value_beq_iff (text s) (text t) = ground (arith, eq_iff s t)
value_beq_iff (boolean a) (boolean b) = ground arith
value_beq_iff (integer m) (integer n) = ground arith
value_beq_iff (other_value s) (other_value t) = ground (arith, eq_iff s t)
value_beq_iff v w = ground arith

instance abbrev pub value_eq : Eq Value
value_eq = record { beq = value_beq; beq_iff = value_beq_iff }

pub record Event : Type 0 where
  pub name : String
  pub time_unix_nano : ℕ
  pub attributes : Dict String Value

pub record Span : Type 0 where
  pub trace_id : String
  pub span_id : String
  pub parent_span_id : String
  pub name : String
  pub kind : String
  pub start_unix_nano : ℕ
  pub end_unix_nano : ℕ
  pub status : String
  pub attributes : Dict String Value
  pub events : List Event
  pub resource : Dict String Value

-- `str(value)` of a text; the service's name is one.
abbrev pub text_of : Option Value → String
text_of (some (text t)) = t
text_of _ = ""

unfoldable pub service : Span → String
service span = text_of (lookup "service.name" span.resource)

unfoldable pub is_root : Span → Bool
is_root span = span.parent_span_id == ""

unfoldable pub overlaps : Span → Span → Bool
overlaps span other =
    ltb span.start_unix_nano other.end_unix_nano && ltb other.start_unix_nano span.end_unix_nano

pub record Trace : Type 0 where
  pub trace_id : String
  pub spans : List Span

unfoldable pub services : Trace → List String
services trace = map service trace.spans

unfoldable pub named : Trace → String → List Span
named trace name = filter (λ span. span.name == name) trace.spans

-- `kind is None or span.kind == kind`
abbrev pub of_kind : Option String → Span → Bool
of_kind none span = true
of_kind (some kind) span = span.kind == kind

unfoldable pub by_service : Trace → String → Option String → List Span
by_service trace name kind = filter (λ span. service span == name && of_kind kind span) trace.spans

unfoldable pub children_of : Trace → Span → List Span
children_of trace span = filter (λ child. child.parent_span_id == span.span_id) trace.spans

-- `next((x for x in xs if p(x)), None)`
abbrev pub first {ℓ} : {A : Type ℓ} → (A → Bool) → List A → Option A
first p [] = none
first p (x ∷ xs) = if p x then some x else first p xs

unfoldable pub parent_of : Trace → Span → Option Span
parent_of trace span = first (λ candidate. candidate.span_id == span.parent_span_id) trace.spans

abbrev pub span_ids : List Span → List String
span_ids spans = map (λ span. span.span_id) spans

unfoldable pub roots : Trace → List Span
unfolding is_root
roots trace =
    filter (λ span. is_root span || not (contains (span_ids trace.spans) span.parent_span_id))
      trace.spans

-- The body of the loop of `group_traces`.
abbrev pub add_span : Dict String (List Span) → Span → Dict String (List Span)
add_span grouped span =
    insert span.trace_id (get_or (lookup span.trace_id grouped) [] ++ span ∷ []) grouped

unfoldable pub grouped_from : Dict String (List Span) → List Span → Dict String (List Span)
grouped_from grouped [] = grouped
grouped_from grouped (span ∷ spans) = grouped_from (add_span grouped span) spans

abbrev pub starts_by : Span → Span → Bool
starts_by a b = leb a.start_unix_nano b.start_unix_nano

abbrev pub to_trace : String × List Span → Trace
to_trace entry = record { trace_id = entry.0; spans = sort_by starts_by entry.1 }

unfoldable pub group_traces : List Span → List Trace
unfolding grouped_from sort_by
group_traces spans = map to_trace (grouped_from [] spans)
