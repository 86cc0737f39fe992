-- ===== src/TraceChecks/Latency.antt =====
-- Where the time of a trace went: `latency_dominance`. Durations are compared by sums, since the
-- clock may go back.
use kubernetes_distributed_t.Traces.{Span, Trace, children_of, is_root, roots}
use kubernetes_distributed_t.TraceChecks.Attempts.{problem_list_iff}
use kubernetes_distributed_t.TraceChecks.{
  Problem, longest_is, problem_if, single, stage_or_transaction_missing, too_little, too_short,
  transaction,
}
use kubernetes_distributed_t.Common.{
  refl, inl, inr, In, Bool, List, Option, String, [], false, filter, if◌then◌else◌, ltb, nat_eq,
  option_eq, some, string_eq, ℕ, ◌!=◌, ◌*◌, ◌++◌, ◌+◌, ◌==◌, ◌∷◌, All, In, ◌≤◌, arith, inl,
  Bool-cases, ltb→lt, inr, ltb→ge, ◌<◌, ◌≡◌, subst, eq_iff, none, ◌⊎◌,
}
use kubernetes_distributed_t.Common.Exec.{Result, ok, raised, value_error}

-- The share of the transaction that the stage takes is below `min_share` thousandths; a
-- transaction without a duration has no share.
abbrev pub is_small : (stage tx : Span) → (min_share : ℕ) → Bool
is_small stage tx min_share =
    let part = 1000 * stage.end_unix_nano + min_share * tx.start_unix_nano in
    let whole = min_share * tx.end_unix_nano + 1000 * stage.start_unix_nano in
    if tx.end_unix_nano == tx.start_unix_nano
    then ltb 0 min_share
    else if ltb tx.start_unix_nano tx.end_unix_nano
    then ltb part whole
    else ltb whole part

-- `a` lasts shorter than `b`.
abbrev pub is_shorter : (a b : Span) → Bool
is_shorter a b = ltb (a.end_unix_nano + b.start_unix_nano) (b.end_unix_nano + a.start_unix_nano)

-- `max(..., key=duration)`: the first of the longest, from the best one so far.
unfoldable pub longest_from : Span → List Span → Span
longest_from best [] = best
longest_from best (span ∷ spans) = longest_from (if is_shorter best span then span else best) spans

unfoldable pub longest : List Span → Result Span
unfolding longest_from
longest [] = raised (value_error "max() iterable argument is empty")
longest (span ∷ spans) = ok (longest_from span spans)

-- `min_trace` is in thousandths of a millisecond.
abbrev pub lasts_too_short : List Span → (min_trace : ℕ) → Bool
lasts_too_short [] min_trace = false
lasts_too_short (root ∷ _) min_trace =
    ltb root.end_unix_nano (root.start_unix_nano + 1000 * min_trace)

abbrev pub with_longest :
    (stage tx : Span) (stage_name : String) (min_share min_trace : ℕ)
    → List Span
    → Result Span
    → Result (List Problem)
with_longest stage tx stage_name min_share min_trace roots (raised e) = raised e
with_longest stage tx stage_name min_share min_trace roots (ok longest) = ok (
    problem_if (is_small stage tx min_share) (too_little stage_name)
    ++ (problem_if (longest.span_id != stage.span_id) (longest_is longest.name stage_name)
        ++ problem_if (lasts_too_short roots min_trace) too_short))

abbrev pub dominance :
    Trace → (tx stage : Option Span) → String → (min_share min_trace : ℕ) → Result (List Problem)
dominance trace (some tx) (some stage) stage_name min_share min_trace =
    with_longest stage tx stage_name min_share min_trace (filter is_root trace.spans)
      (longest (children_of trace tx))
dominance trace _ _ stage_name min_share min_trace =
    ok (stage_or_transaction_missing stage_name ∷ [])

unfoldable pub latency_dominance :
    Trace → (stage_name : String) (min_share min_trace : ℕ) → Result (List Problem)
unfolding transaction single longest children_of is_root
latency_dominance trace stage_name min_share min_trace =
    dominance trace (transaction trace) (single trace stage_name) stage_name min_share min_trace

-- `a` lasts no longer than `b`.
abbrev pub NoLonger : (a b : Span) → Type 0
NoLonger a b = a.end_unix_nano + b.start_unix_nano ≤ b.end_unix_nano + a.start_unix_nano

-- The better one of two.
abbrev pick : (best span : Span) → Span
pick best span = if is_shorter best span then span else best

pick-cases : (best span : Span) → (pick best span ≡ best) ⊎ (pick best span ≡ span)
pick-cases best span = elim (Bool-cases (is_shorter best span)) [
  | inl shorter ↦ inr (rw shorter refl)
  | inr longer ↦ inl (rw longer refl)
]

pick-NoLonger : (best span : Span) → NoLonger best (pick best span) × NoLonger span (pick best span)
pick-NoLonger best span = elim (Bool-cases (is_shorter best span)) [
  | inl shorter ↦ rw shorter (omega (arith, ltb→lt _ _ shorter), omega arith)
  | inr longer ↦ rw longer (omega arith, ltb→ge _ _ longer)
]

longest_from-NoLonger :
    (best : Span) (spans : List Span)
    → NoLonger best (longest_from best spans)
      × All (λ span. NoLonger span (longest_from best spans)) spans
unfolding longest_from
longest_from-NoLonger best [] = (omega arith, tt)
longest_from-NoLonger best (span ∷ spans) =
    let (top, others) = longest_from-NoLonger (pick best span) spans in
    let (left, right) = pick-NoLonger best span in
    (omega (arith, top, left), (omega (arith, top, right), others))

longest_from-In : (best : Span) (spans : List Span) → In (longest_from best spans) (best ∷ spans)
unfolding longest_from
longest_from-In best [] = inl refl
longest_from-In best (span ∷ spans) = elim (longest_from-In (pick best span) spans) [
  | inl e ↦ elim (pick-cases best span) [ inl old ↦ inl (cc) | inr new ↦ inr (inl (cc)) ]
  | inr m ↦ inr (inr m)
]

-- The stage takes its share of the transaction, where the transaction has a duration.
pub record HasShare (stage tx : Span) (min_share : ℕ) : Type 0 where
  pub forward :
      tx.start_unix_nano < tx.end_unix_nano
      → min_share * tx.end_unix_nano + 1000 * stage.start_unix_nano
        ≤ 1000 * stage.end_unix_nano + min_share * tx.start_unix_nano
  pub empty : tx.start_unix_nano ≡ tx.end_unix_nano → min_share ≡ 0
  pub backward :
      tx.end_unix_nano < tx.start_unix_nano
      → 1000 * stage.end_unix_nano + min_share * tx.start_unix_nano
        ≤ min_share * tx.end_unix_nano + 1000 * stage.start_unix_nano

is_small-HasShare :
    (stage tx : Span) (min_share : ℕ)
    → is_small stage tx min_share ≡ false
    → HasShare stage tx min_share
is_small-HasShare stage tx min_share h = record {
  forward = ground arith;
  empty = ground arith;
  backward = ground arith;
}

-- The stage dominates the transaction: its share is large enough, a longest step of the
-- transaction is the stage, and the trace's first root lasts long enough.
pub record Dominates (trace : Trace) (tx stage : Span) (min_share min_trace : ℕ) : Type 0 where
  pub has_share : HasShare stage tx min_share
  pub is_longest :
      (step : Span) × In step (children_of trace tx)
      × All (λ other. NoLonger other step) (children_of trace tx)
      × (step.span_id ≡ stage.span_id)
  pub lasts :
      (root : Span) (rest : List Span)
      → filter is_root trace.spans ≡ root ∷ rest
      → root.start_unix_nano + 1000 * min_trace ≤ root.end_unix_nano

longest-ok :
    (spans : List Span) (step : Span)
    → longest spans ≡ ok step
    → In step spans × All (λ other. NoLonger other step) spans
unfolding longest
longest-ok [] step h = absurd (cc)
longest-ok (span ∷ spans) step h =
    let same : longest_from span spans ≡ step = cc in
    subst (λ (s : Span). In s (span ∷ spans) × All (λ other. NoLonger other s) (span ∷ spans)) same
      (longest_from-In span spans, longest_from-NoLonger span spans)

lasts_lem :
    (roots : List Span) (min_trace : ℕ)
    → lasts_too_short roots min_trace ≡ false
    → (root : Span) (rest : List Span) → roots ≡ root ∷ rest
    → root.start_unix_nano + 1000 * min_trace ≤ root.end_unix_nano
lasts_lem [] min_trace h root rest e = cc
lasts_lem (first ∷ others) min_trace h root rest e =
    let same : first ≡ root = cc in
    subst (λ (r : Span). r.start_unix_nano + 1000 * min_trace ≤ r.end_unix_nano) same (ltb→ge _ _ h)

with_longest-ok :
    (trace : Trace) (stage tx : Span) (name : String) (min_share min_trace : ℕ) (r : Result Span)
    → longest (children_of trace tx) ≡ r
    → with_longest stage tx name min_share min_trace (filter is_root trace.spans) r ≡ ok []
    → Dominates trace tx stage min_share min_trace
with_longest-ok trace stage tx name min_share min_trace (raised e) w h = cc
with_longest-ok trace stage tx name min_share min_trace (ok step) w h =
    let roots = filter is_root trace.spans in
    let parts =
      problem_list_iff (is_small stage tx min_share) (step.span_id != stage.span_id)
        (lasts_too_short roots min_trace) (too_little name) (longest_is step.name name) too_short in
    let nothing : problem_if (is_small stage tx min_share) (too_little name)
          ++ (problem_if (step.span_id != stage.span_id) (longest_is step.name name)
              ++ problem_if (lasts_too_short roots min_trace) too_short)
        ≡ [] =
      cc in
    let (small, other, short) = parts.0 nothing in
    let (member, least) = longest-ok (children_of trace tx) step w in
    let same_id : step.span_id ≡ stage.span_id =
      ground (arith, eq_iff step.span_id stage.span_id, other) in
    record {
      has_share = is_small-HasShare stage tx min_share small;
      is_longest = (step, member, least, same_id);
      lasts = lasts_lem roots min_trace short;
    }

dominance-ok :
    (trace : Trace) (tx stage : Option Span) (name : String) (min_share min_trace : ℕ)
    → dominance trace tx stage name min_share min_trace ≡ ok []
    → (t : Span) × (s : Span) × (tx ≡ some t)
      × (stage ≡ some s)
      × Dominates trace t s min_share min_trace
dominance-ok trace (some tx) (some stage) name min_share min_trace h = (
  tx,
  stage,
  refl,
  refl,
  with_longest-ok trace stage tx name min_share min_trace (longest (children_of trace tx)) refl h,
)
dominance-ok trace none stage name min_share min_trace h = absurd cc
dominance-ok trace (some tx) none name min_share min_trace h = absurd cc

-- If the check of the latency passes, there is one transaction span and one span of the stage, and
-- the stage dominates the transaction.
pub latency_dominance-ok :
    (trace : Trace) (stage_name : String) (min_share min_trace : ℕ)
    → latency_dominance trace stage_name min_share min_trace ≡ ok []
    → (tx : Span) × (stage : Span) × (transaction trace ≡ some tx)
      × (single trace stage_name ≡ some stage)
      × Dominates trace tx stage min_share min_trace
unfolding latency_dominance
latency_dominance-ok trace stage_name min_share min_trace h =
    dominance-ok trace (transaction trace) (single trace stage_name) stage_name min_share min_trace
      h
