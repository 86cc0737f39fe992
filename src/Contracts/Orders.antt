-- ===== src/Contracts/Orders.antt =====
-- What the contracts on order flows show, when they find nothing wrong.
use mathlib.Core.List.{map-append}
use kubernetes_distributed_t.Jaeger
use kubernetes_distributed_t.Contracts.Logic.{
  Shows, ask-Shows_with, bind-Shows, check-Shows, pure-Shows, raise-Shows, weaken-Shows, then-Shows,
  when-Shows, for_each-Shows, note-Shows,
}
use kubernetes_distributed_t.Contracts.Flows.{check_result, path_result, each_stored}
use kubernetes_distributed_t.Contracts.{
  Backend, Library, ask, check_trace, has_services, in_trace, keep_stored, stored_traces, trace,
  check, not_stored, or_text, common, Contract, gateway_span_gaps, kong_gap_note,
}
use kubernetes_distributed_t.Jaeger.Waiting.{wait_for_trace-id}
use kubernetes_distributed_t.Workload.{RequestRecord}
use kubernetes_distributed_t.Records.{RunRecord}
use kubernetes_distributed_t.TraceChecks.Integrity.{integrity}
use kubernetes_distributed_t.TraceChecks.Content.{correlation, kubernetes_metadata, sensitive_data}
use kubernetes_distributed_t.TraceChecks.{Problem}
use kubernetes_distributed_t.Traces.{Trace}
use kubernetes_distributed_t.Common.{
  All, List, Option, String, [], if_holds, map, map_nil_iff, nat_eq, none, option_eq, refl, some,
  string_eq, true, ◌++◌, ◌==◌, ◌∷◌, ◌≡◌, All-append, not, is_empty,
}
use kubernetes_distributed_t.Common.Exec.{Result, ok, pure, raised, ◌>>◌}
use kubernetes_distributed_t.Common.Texts.{concat}

-- The trace stored under the request's id, complete, and in good order by the common checks.
pub record Sound (r : RunRecord) (library : Library) (required : List String)
    (request : RequestRecord) (t : Trace) : Type 0 where
  pub same_id : t.trace_id ≡ request.trace_id
  pub complete : has_services required t ≡ true
  pub whole : integrity library.int t ≡ []
  pub located : kubernetes_metadata t ≡ []
  pub correlated : correlation t request r.run_id ≡ []
  pub discreet : sensitive_data library.dumps t (concat ("canary-" ∷ r.run_id ∷ []) ∷ []) ≡ []

-- Each of the requests has a trace that is sound, and that is as `P` says.
pub record Traced (r : RunRecord) (library : Library) (required : List String)
    (sent : List RequestRecord) (P : Trace → Type 0) : Type 0 where
  pub found : List (RequestRecord × Trace)
  pub of_each : map (λ entry. entry.0) found ≡ sent
  pub sound :
      All
        (λ (entry : RequestRecord × Trace). Sound r library required entry.0 entry.1 × P entry.1)
        found

-- A request with the trace that is stored for it.
abbrev Stored : (required : List String) → RequestRecord × Trace → Type 0
Stored required (request, t) = (t.trace_id ≡ request.trace_id) × (has_services required t ≡ true)

-- What is kept for a request: itself, with its trace, if what was found has the request's id.
abbrev Kept :
    (required : List String) → RequestRecord → Option Trace → List (RequestRecord × Trace) → Type 0
Kept required request found kept =
    ((t : Trace) → found ≡ some t → t.trace_id ≡ request.trace_id)
    → (map (λ entry. entry.0) kept ≡ request ∷ []) × All (Stored required) kept

pub check_trace-Shows :
    {S : Type 0} (name : String) (problems : List Problem) (t : Trace)
    → Shows {S = S} (λ _. problems ≡ []) (check_trace name problems t)
check_trace-Shows name problems t =
    weaken-Shows (check_trace name problems t) (λ _ h. (map_nil_iff in_trace problems).0 h)
      (check-Shows name (map in_trace problems) t.trace_id)

pub check_result-Shows :
    {S : Type 0} (name : String) (problems : Result (List Problem)) (t : Trace)
    → Shows {S = S} (λ _. problems ≡ ok []) (check_result name problems t)
check_result-Shows name (ok problems) t =
    weaken-Shows (check_trace name problems t) (λ _ h. cc) (check_trace-Shows name problems t)
check_result-Shows name (raised e) t = raise-Shows _ e

heads-append :
    {A B : Type 0} (xs ys : List (A × B)) {a : A} {others : List A}
    → map (λ entry. entry.0) xs ≡ a ∷ []
    → map (λ entry. entry.0) ys ≡ others
    → map (λ entry. entry.0) (xs ++ ys) ≡ a ∷ others
heads-append xs ys left right = rw (map-append (λ entry. entry.0) xs ys, left, right) refl

pub path_result-ok : (o : Option (List Problem)) → path_result o ≡ ok [] → o ≡ some []
path_result-ok none h = absurd (cc)
path_result-ok (some problems) h = cc

module _ {S : Type 0} (b : Backend S) (r : RunRecord) where
  trace-Shows :
      (request : RequestRecord) (required : List String)
      → Shows
          (λ found. (t : Trace) → found ≡ some t → t.trace_id ≡ request.trace_id)
          (trace b r request required)
  unfolding trace
  trace-Shows request required =
      let P =
        λ (found : Option Trace). (t : Trace) → found ≡ some t → t.trace_id ≡ request.trace_id in
      if_holds (λ m. Shows P m) (request.trace_id == "") (pure none)
        (ask (Jaeger.wait_for_trace b.jaeger request.trace_id 60 (has_services required)))
        (λ blank. pure-Shows none P (λ t e. absurd (cc)))
        (λ known.
          ask-Shows_with
            (Jaeger.wait_for_trace b.jaeger request.trace_id 60 (has_services required))
            (λ s found e t same.
              wait_for_trace-id b.jaeger (has_services required) request.trace_id t 60 s (cc)))

  -- A request whose trace is not stored is a finding.
  lost-Shows :
      (name : String) (request : RequestRecord) (P : List (RequestRecord × Trace) → Type 0)
      → Shows P (
          check {S = S} name (not_stored ∷ []) (or_text request.trace_id request.correlation_id)
          >> pure [])
  lost-Shows name request P =
      bind-Shows (check name (not_stored ∷ []) (or_text request.trace_id request.correlation_id)) _
        (check-Shows name (not_stored ∷ []) (or_text request.trace_id request.correlation_id))
        (λ _. pure-Shows [] (λ kept. not_stored ∷ [] ≡ [] → P kept) (λ e. absurd (cc)))

  keep_stored-Shows :
      (required : List String) (name : String) (request : RequestRecord) (found : Option Trace)
      → Shows (Kept required request found) (keep_stored b r required name request found)
  keep_stored-Shows required name request none = lost-Shows name request _
  keep_stored-Shows required name request (some t) =
      if_holds (λ m. Shows (Kept required request (some t)) m) (has_services required t)
        (pure ((request, t) ∷ [])) _
        (λ complete. pure-Shows ((request, t) ∷ []) _ (λ ids. (refl, ((ids t refl, complete), tt))))
        (λ partial. lost-Shows name request _)

  stored_traces-Shows :
      (sent : List RequestRecord) (required : List String) (name : String)
      → Shows
          (λ found. (map (λ entry. entry.0) found ≡ sent) × All (Stored required) found)
          (stored_traces b r sent required name)
  unfolding stored_traces
  stored_traces-Shows [] required name = pure-Shows [] _ (refl, tt)
  stored_traces-Shows (request ∷ rest) required name =
      bind-Shows (trace b r request required) _ (trace-Shows request required) (λ found.
        bind-Shows (keep_stored b r required name request found) _
          (keep_stored-Shows required name request found)
          (λ kept.
            bind-Shows (stored_traces b r rest required name) _
              (stored_traces-Shows rest required name)
              (λ others. pure-Shows (kept ++ others) _ (λ rest_found kept_found ids.
                let (same, stored) = kept_found ids in
                (
                  heads-append kept others same rest_found.0,
                  All-append (Stored required) kept others stored rest_found.1,
                )))))

  common-Shows :
      (library : Library) (required : List String) (request : RequestRecord) (t : Trace)
      → Shows
          (λ _. Stored required (request, t) → Sound r library required request t)
          (common b r library request t)
  unfolding common
  common-Shows library required request t =
      weaken-Shows _
        (λ _ (whole, (_, (located, (correlated, discreet)))) (same_id, complete). record {
          same_id = same_id;
          complete = complete;
          whole = whole;
          located = located;
          correlated = correlated;
          discreet = discreet;
        })
        (then-Shows _ _ (check_trace-Shows "trace integrity" (integrity library.int t) t) (
          then-Shows _ _
            (when-Shows (not (is_empty (gateway_span_gaps library.int t))) _
              (note-Shows kong_gap_note t.trace_id))
            (then-Shows _ _ (check_trace-Shows "kubernetes metadata" (kubernetes_metadata t) t) (
              then-Shows _ _ (check_trace-Shows "correlation" (correlation t request r.run_id) t) (
                check_trace-Shows "sensitive data"
                  (sensitive_data library.dumps t (concat ("canary-" ∷ r.run_id ∷ []) ∷ [])) t)))))

  Sound-All :
      (library : Library) (required : List String) (P : Trace → Type 0)
      (found : List (RequestRecord × Trace))
      → All
          (λ (e : RequestRecord × Trace).
            (Stored required e → Sound r library required e.0 e.1) × P e.1)
          found
      → All (Stored required) found
      → All (λ (e : RequestRecord × Trace). Sound r library required e.0 e.1 × P e.1) found
  Sound-All library required P [] checks stored = tt
  Sound-All library required P (e ∷ found) ((sound, p), checks) (here, stored) =
      ((sound here, p), Sound-All library required P found checks stored)

  pub each_stored-Shows :
      (library : Library) (sent : List RequestRecord) (required : List String) (name : String)
      (body : RequestRecord → Trace → Contract S (Unit {0})) (P : Trace → Type 0)
      → ((request : RequestRecord) (t : Trace) → Shows (λ _. P t) (body request t))
      → Shows
          (λ _. Traced r library required sent P)
          (each_stored b r library sent required name body)
  each_stored-Shows library sent required name body P h =
      bind-Shows (stored_traces b r sent required name) _ (stored_traces-Shows sent required name)
        (λ found.
          weaken-Shows _
            (λ _ checks (same, stored). record {
              found = found;
              of_each = same;
              sound = Sound-All library required P found checks stored;
            })
            (for_each-Shows
              {P = λ e. (Stored required e → Sound r library required e.0 e.1) × P e.1} found _
              (λ (request, t).
                then-Shows _ _ (common-Shows library required request t) (h request t))))
