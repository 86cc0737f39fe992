-- ===== src/TraceChecks/Carried.antt =====
-- When the checks of a trace's content pass.
use kubernetes_distributed_t.TraceChecks.Content.{
  correlation, dotnet_services, downstream_servers, expected_at, found_in, gather, is_sensitive,
  is_true, k8s_keys, kubernetes_metadata, metadata_problem, missing_keys, sensitive_data,
  sensitive_keys, order_problem, run_ids, correlation_problems, replay_problems, idempotent_replay,
  recorded, authorizations, is_replay,
}
use kubernetes_distributed_t.Traces.{Span, Trace, service, text, by_service}
use kubernetes_distributed_t.TraceChecks.{
  Problem, canary_found, edge_service, kong_lacks_namespace, lacks, problem_if_iff,
  sensitive_attribute, transaction, unless_none, problem_if, foreign_runs, order_service,
}
use kubernetes_distributed_t.Common.{
  map_nil_iff, All, Bool, Bool-cases, List, String, [], append_nil_iff, arith, contains, eq_iff,
  false, filter, inl, inr, map, nat_eq, not, option_beq_iff, option_eq, refl, some, string_eq, suc,
  take, true, ℕ, ◌!=◌, ◌&&◌, ◌==◌, ◌↔◌, ◌∷◌, ◌≡◌, ◌≢◌, if◌then◌else◌, subst, Option, any, ◌++◌,
  none, ◌≤◌, length, last,
}
use kubernetes_distributed_t.Common.Dict.{keys, lookup}
use kubernetes_distributed_t.Common.Texts.{mentions}
use kubernetes_distributed_t.TraceChecks.Structure.{unless_none_iff}
use kubernetes_distributed_t.Traces.{value_eq}
use kubernetes_distributed_t.Workload.{RequestRecord}

-- Every span of a .NET service names its place in the cluster, and every span of the gateway its
-- namespace.
pub record Located (span : Span) : Type 0 where
  pub placed :
      contains dotnet_services (service span) ≡ true
      → All (λ key. is_true (lookup key span.resource) ≡ true) k8s_keys
  pub namespaced :
      service span ≡ edge_service → is_true (lookup "k8s.namespace.name" span.resource) ≡ true

missing_iff :
    {A : Type 0} (test : A → Bool) (xs : List A)
    → (filter (λ x. not (test x)) xs ≡ []) ↔ All (λ x. test x ≡ true) xs
missing_iff test [] = ground arith
missing_iff test (x ∷ xs) = ground (arith, missing_iff test xs)

gather_iff :
    {A : Type 0} {P : A → Type 0} (problems_of : A → List Problem)
    → ((x : A) → (problems_of x ≡ []) ↔ P x)
    → (xs : List A) → (gather problems_of xs ≡ []) ↔ All P xs
gather_iff problems_of h [] = ground arith
gather_iff problems_of h (x ∷ xs) = ground (
  arith,
  append_nil_iff (problems_of x) (gather problems_of xs),
  h x,
  gather_iff problems_of h xs,
)

take_nil_iff : {A : Type 0} (n : ℕ) (xs : List A) → (take (suc n) xs ≡ []) ↔ (xs ≡ [])
take_nil_iff n [] = ground arith
take_nil_iff n (x ∷ xs) = ground arith

either_iff :
    (b c : Bool) (xs : List Problem)
    → (b ≡ true → c ≡ false)
    → ((if b then xs else problem_if c kong_lacks_namespace) ≡ [])
      ↔ ((b ≡ true → xs ≡ []) × (c ≡ false))
either_iff true c xs h = ground arith
either_iff false c xs h = ground arith

edge_apart : (s : String) → contains dotnet_services s ≡ true → (s == edge_service) ≡ false
edge_apart s h = elim (Bool-cases (s == edge_service)) [
  | inl same ↦
      let moved : false ≡ true =
        subst (λ t. contains dotnet_services t ≡ true) ((eq_iff s edge_service).0 same) h in
      cc
  | inr other ↦ other
]

metadata_problem_iff : (span : Span) → (metadata_problem span ≡ []) ↔ Located span
metadata_problem_iff span =
    let found = missing_iff (λ key. is_true (lookup key span.resource)) k8s_keys in
    let lacking = unless_none_iff (missing_keys span) (lacks (service span) span.name) in
    let namespace = is_true (lookup "k8s.namespace.name" span.resource) in
    let same = eq_iff (service span) edge_service in
    let parts =
      either_iff (contains dotnet_services (service span))
        (service span == edge_service && not namespace)
        (unless_none (missing_keys span) (lacks (service span) span.name))
        (λ h. ground (arith, edge_apart (service span) h)) in
    (
      λ h. record {
        placed = λ y. found.0 (lacking.0 ((parts.0 h).0 y));
        namespaced = λ e. ground (arith, same, (parts.0 h).1, e);
      },
      λ l. parts.1 (λ y. lacking.1 (found.1 (l.placed y)), ground (arith, same, l.namespaced)),
    )

-- The check of the metadata passes exactly if every span of a .NET service has its namespace, pod,
-- node and deployment, and every span of the gateway has its namespace.
pub kubernetes_metadata_iff :
    (trace : Trace) → (kubernetes_metadata trace ≡ []) ↔ All Located trace.spans
unfolding kubernetes_metadata
kubernetes_metadata_iff trace =
    let some_left = take_nil_iff 4 (gather metadata_problem trace.spans) in
    let each = gather_iff metadata_problem metadata_problem_iff trace.spans in
    (λ h. each.0 (some_left.0 h), λ h. some_left.1 (each.1 h))

-- No attribute of the span has a name that suggests a secret.
abbrev pub Unsuspicious : Span → Type 0
Unsuspicious span = All (λ key. is_sensitive key ≡ false) (keys span.attributes)

filter_nil_iff :
    {A : Type 0} (test : A → Bool) (xs : List A)
    → (filter test xs ≡ []) ↔ All (λ x. test x ≡ false) xs
filter_nil_iff test [] = ground arith
filter_nil_iff test (x ∷ xs) = ground (arith, filter_nil_iff test xs)

sensitive_keys_iff : (span : Span) → (sensitive_keys span ≡ []) ↔ Unsuspicious span
sensitive_keys_iff span =
    let mapped =
      map_nil_iff (sensitive_attribute (service span) span.name)
        (filter is_sensitive (keys span.attributes)) in
    let none_left = filter_nil_iff is_sensitive (keys span.attributes) in
    (λ h. none_left.0 (mapped.0 h), λ h. mapped.1 (none_left.1 h))

module _ (dump : Trace → String) where
  -- The check of sensitive data passes exactly if no attribute's name suggests a secret, and no
  -- canary that is not empty stands in the trace's text.
  pub sensitive_data_iff :
      (trace : Trace) (canaries : List String)
      → (sensitive_data dump trace canaries ≡ []) ↔ (
          All Unsuspicious trace.spans
          × All (λ canary. (canary != "" && mentions (dump trace) canary) ≡ false) canaries)
  unfolding sensitive_data
  sensitive_data_iff trace canaries =
      let parts =
        append_nil_iff (gather sensitive_keys trace.spans)
          (map canary_found (found_in (dump trace) canaries)) in
      let each = gather_iff sensitive_keys sensitive_keys_iff trace.spans in
      let mapped = map_nil_iff canary_found (found_in (dump trace) canaries) in
      let none_left =
        filter_nil_iff (λ canary. canary != "" && mentions (dump trace) canary) canaries in
      (
        λ h. (each.0 (parts.0 h).0, none_left.0 (mapped.0 (parts.0 h).1)),
        λ h. parts.1 (each.1 h.0, mapped.1 (none_left.1 h.1)),
      )

-- A server span that carries what is known of the request, and a transaction and services below
-- that agree with it.
pub record Correlated (trace : Trace) (server : Span) (request : RequestRecord) (run_id : String)
    : Type 0 where
  pub correlation_carried :
      request.correlation_id ≢ ""
      → lookup "correlation.id" server.attributes ≡ some (text request.correlation_id)
  pub run_carried : run_id ≢ "" → lookup "scenario.run_id" server.attributes ≡ some (text run_id)
  pub kong_carried :
      request.kong_request_id ≢ ""
      → lookup "kong.request.id" server.attributes ≡ some (text request.kong_request_id)
  pub order_carried :
      (tx : Span)
      → transaction trace ≡ some tx
      → request.order_id ≢ ""
      → lookup "order.id" tx.attributes ≡ some (text request.order_id)
  pub below_carry :
      All
        (λ (s : Span). lookup "scenario.run_id" s.attributes ≡ some (text run_id))
        (downstream_servers trace.spans)

expected_at_iff :
    (server : Span) (key expected : String)
    → (expected_at server key expected ≡ [])
      ↔ (expected ≢ "" → lookup key server.attributes ≡ some (text expected))
expected_at_iff server key expected = ground (
  arith,
  eq_iff expected "",
  option_beq_iff (lookup key server.attributes) (some (text expected)),
)

order_problem_iff :
    (found : Option Span) (order_id : String)
    → (order_problem found order_id ≡ []) ↔ (
        (tx : Span)
        → found ≡ some tx
        → order_id ≢ ""
        → lookup "order.id" tx.attributes ≡ some (text order_id))
order_problem_iff none order_id = (λ h tx e. cc, λ h. refl)
order_problem_iff (some tx) order_id = (
  λ h other e filled.
      let same : tx ≡ other = cc in
      subst (λ (t : Span). lookup "order.id" t.attributes ≡ some (text order_id)) same
        ((expected_at_iff tx "order.id" order_id).0 h filled),
  λ h. (expected_at_iff tx "order.id" order_id).1 (h tx refl),
)

run_ids_iff :
    (run_id : String) (spans : List Span)
    → (any (λ id. id != some (text run_id)) (run_ids spans) ≡ false)
      ↔ All (λ (s : Span). lookup "scenario.run_id" s.attributes ≡ some (text run_id)) spans
run_ids_iff run_id [] = ground arith
run_ids_iff run_id (s ∷ spans) = ground (
  arith,
  run_ids_iff run_id spans,
  option_beq_iff (lookup "scenario.run_id" s.attributes) (some (text run_id)),
)

append_five_iff :
    (xs ys zs us vs : List Problem)
    → (xs ++ (ys ++ (zs ++ (us ++ vs))) ≡ [])
      ↔ ((xs ≡ []) × (ys ≡ []) × (zs ≡ []) × (us ≡ []) × (vs ≡ []))
append_five_iff xs ys zs us vs = ground (
  arith,
  append_nil_iff xs (ys ++ (zs ++ (us ++ vs))),
  append_nil_iff ys (zs ++ (us ++ vs)),
  append_nil_iff zs (us ++ vs),
  append_nil_iff us vs,
)

correlation_problems_iff :
    (trace : Trace) (request : RequestRecord) (run_id : String) (servers : List Span)
    → (correlation_problems servers
          (transaction trace)
          (downstream_servers trace.spans)
          request
          run_id
        ≡ [])
      ↔ ((server : Span) × (rest : List Span) × (servers ≡ server ∷ rest)
          × Correlated trace server request run_id)
correlation_problems_iff trace request run_id [] = (λ h. cc, λ h. cc)
correlation_problems_iff trace request run_id (server ∷ rest) =
    let below = downstream_servers trace.spans in
    let p1 = expected_at server "correlation.id" request.correlation_id in
    let p2 = expected_at server "scenario.run_id" run_id in
    let p3 = expected_at server "kong.request.id" request.kong_request_id in
    let p4 = order_problem (transaction trace) request.order_id in
    let p5 =
      problem_if (any (λ id. id != some (text run_id)) (run_ids below))
        (foreign_runs (run_ids below)) in
    let all = append_five_iff p1 p2 p3 p4 p5 in
    let e1 = expected_at_iff server "correlation.id" request.correlation_id in
    let e2 = expected_at_iff server "scenario.run_id" run_id in
    let e3 = expected_at_iff server "kong.request.id" request.kong_request_id in
    let e4 = order_problem_iff (transaction trace) request.order_id in
    let e5 =
      problem_if_iff (any (λ id. id != some (text run_id)) (run_ids below))
        (foreign_runs (run_ids below)) in
    let e6 = run_ids_iff run_id below in
    (
      λ h.
          let (h1, h2, h3, h4, h5) = all.0 h in
          (
            server,
            rest,
            refl,
            record {
              correlation_carried = e1.0 h1;
              run_carried = e2.0 h2;
              kong_carried = e3.0 h3;
              order_carried = e4.0 h4;
              below_carry = e6.0 (e5.0 h5);
            },
          ),
      λ (s, r, e, c).
          let c' : Correlated trace server request run_id =
            subst (λ (x : Span). Correlated trace x request run_id) (cc) c in
          all.1 (
            e1.1 c'.correlation_carried,
            e2.1 c'.run_carried,
            e3.1 c'.kong_carried,
            e4.1 c'.order_carried,
            e5.1 (e6.1 c'.below_carry),
          ),
    )

-- The check of the correlation passes exactly if OrderService has a server span, and the first one
-- carries the ids of the request and the run, as far as they are known, and the transaction and
-- the services below agree with them.
pub correlation_iff :
    (trace : Trace) (request : RequestRecord) (run_id : String)
    → (correlation trace request run_id ≡ []) ↔ (
        (server : Span) × (rest : List Span) × (by_service trace order_service (some "SERVER")
          ≡ server ∷ rest)
        × Correlated trace server request run_id)
unfolding correlation
correlation_iff trace request run_id =
    correlation_problems_iff trace request run_id (by_service trace order_service (some "SERVER"))

replay_problems_iff :
    (servers : List Span)
    → (replay_problems servers ≡ [])
      ↔ ((2 ≤ length servers) × (recorded servers ≡ 1) × (is_replay (last servers) ≡ true))
replay_problems_iff servers = ground arith

-- The check of the replay passes exactly if PaymentService answered at least two attempts, the
-- authorization was recorded once among them, and the last was answered as a replay.
pub idempotent_replay_iff :
    (trace : Trace)
    → (idempotent_replay trace ≡ []) ↔ (
        (2 ≤ length (authorizations trace))
        × (recorded (authorizations trace) ≡ 1)
        × (is_replay (last (authorizations trace)) ≡ true))
unfolding idempotent_replay
idempotent_replay_iff trace = replay_problems_iff (authorizations trace)
