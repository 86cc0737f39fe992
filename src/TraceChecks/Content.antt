-- ===== src/TraceChecks/Content.antt =====
-- What the spans of a trace carry: `kubernetes_metadata`, `correlation`, `idempotent_replay` and
-- `sensitive_data`. The JSON text of a trace's attributes is a parameter.
use kubernetes_distributed_t.Traces.{
  value_eq, Span, Trace, Value, boolean, by_service, integer, other_value, service, starts_by, text,
}
use kubernetes_distributed_t.Workload.{RequestRecord}
use kubernetes_distributed_t.TraceChecks.{
  Problem, canary_found, differs_at, downstream, edge_service, few_attempts, foreign_runs,
  kong_lacks_namespace, lacks, no_replay, no_server, order_service, problem_if, sensitive_attribute,
  transaction, unless_none, wrong_recordings,
}
use kubernetes_distributed_t.Common.{
  Bool, List, Option, String, [], any, contains, false, filter, if◌then◌else◌, length, ltb, map,
  nat_eq, none, not, option_eq, some, string_eq, take, true, ℕ, ◌!=◌, ◌&&◌, ◌++◌, ◌+◌, ◌==◌, ◌∷◌,
  last,
}
use kubernetes_distributed_t.Common.Dict.{keys, lookup}
use kubernetes_distributed_t.Common.Sort.{sort_by}
use kubernetes_distributed_t.Common.Texts.{mentions, mentions_any_case}

abbrev pub dotnet_services : List String
dotnet_services = order_service ∷ downstream

abbrev pub k8s_keys : List String
k8s_keys = "k8s.namespace.name" ∷ "k8s.pod.name" ∷ "k8s.node.name" ∷ "k8s.deployment.name" ∷ []

-- Whether a value found counts as there; the last texts are those of empty values.
abbrev pub is_true : Option Value → Bool
is_true none = false
is_true (some (text s)) = s != ""
is_true (some (boolean b)) = b
is_true (some (integer n)) = n != 0
is_true (some (other_value s)) = not (contains ("null" ∷ "0.0" ∷ "-0.0" ∷ "[]" ∷ "{}" ∷ []) s)

abbrev pub missing_keys : Span → List String
missing_keys span = filter (λ key. not (is_true (lookup key span.resource))) k8s_keys

abbrev pub metadata_problem : Span → List Problem
metadata_problem span =
    if contains dotnet_services (service span)
    then unless_none (missing_keys span) (lacks (service span) span.name)
    else problem_if
        (service span == edge_service && not (is_true (lookup "k8s.namespace.name" span.resource)))
        kong_lacks_namespace

-- `for x in xs: problems += problems_of(x)`
abbrev pub gather {ℓ} : {A : Type ℓ} → (A → List Problem) → List A → List Problem
gather problems_of [] = []
gather problems_of (x ∷ xs) = problems_of x ++ gather problems_of xs

unfoldable pub kubernetes_metadata : Trace → List Problem
unfolding service
kubernetes_metadata trace = take 5 (gather metadata_problem trace.spans)

-- The spans of the services below OrderService that answer it.
abbrev pub downstream_servers : List Span → List Span
downstream_servers spans = filter (λ s. contains downstream (service s) && s.kind == "SERVER") spans

abbrev pub expected_at : Span → (key expected : String) → List Problem
expected_at server key expected =
    problem_if (expected != "" && lookup key server.attributes != some (text expected))
      (differs_at key)

abbrev pub order_problem : Option Span → (order_id : String) → List Problem
order_problem none order_id = []
order_problem (some tx) order_id = expected_at tx "order.id" order_id

abbrev pub run_ids : List Span → List (Option Value)
run_ids spans = map (λ s. lookup "scenario.run_id" s.attributes) spans

-- A set of ids that is not empty differs from `{run_id}` where one of them is another.
abbrev pub correlation_problems :
    List Span → Option Span → List Span → RequestRecord → String → List Problem
correlation_problems [] tx below request run_id = no_server ∷ []
correlation_problems (server ∷ _) tx below request run_id =
    expected_at server "correlation.id" request.correlation_id
    ++ (expected_at server "scenario.run_id" run_id
        ++ (expected_at server "kong.request.id" request.kong_request_id
            ++ (order_problem tx request.order_id
                ++ problem_if (any (λ id. id != some (text run_id)) (run_ids below))
                    (foreign_runs (run_ids below)))))

unfoldable pub correlation : Trace → RequestRecord → (run_id : String) → List Problem
unfolding service by_service transaction
correlation trace request run_id =
    correlation_problems (by_service trace order_service (some "SERVER")) (transaction trace)
      (downstream_servers trace.spans) request run_id

-- The spans in which PaymentService answers for an authorization, by start.
unfoldable pub authorizations : Trace → List Span
unfolding by_service sort_by mentions
authorizations trace = sort_by starts_by (
    filter (λ s. mentions s.name "authorizations")
      (by_service trace "payment-service" (some "SERVER")))

-- How many events say that the authorization was recorded.
abbrev pub recorded : List Span → ℕ
recorded [] = 0
recorded (span ∷ spans) =
    length (filter (λ event. event.name == "payment.authorization_recorded") span.events)
    + recorded spans

abbrev pub is_replay : Option Span → Bool
is_replay none = false
is_replay (some span) = lookup "payment.idempotent_replay" span.attributes == some (boolean true)

abbrev pub replay_problems : List Span → List Problem
replay_problems servers =
    if ltb (length servers) 2
    then few_attempts (length servers) ∷ []
    else (problem_if (recorded servers != 1) (wrong_recordings (recorded servers))
        ++ problem_if (not (is_replay (last servers))) no_replay)

unfoldable pub idempotent_replay : Trace → List Problem
unfolding authorizations
idempotent_replay trace = replay_problems (authorizations trace)

-- The alternatives of SENSITIVE_KEY_PATTERN: `[._-]?` is one of three signs, or none.
abbrev pub sensitive_words : List String
sensitive_words =
    "authorization" ∷ "cookie" ∷ "password" ∷ "passwd" ∷ "secret" ∷ "token" ∷ "apikey" ∷ "api.key"
    ∷ "api_key" ∷ "api-key" ∷ "cardnumber" ∷ "card.number" ∷ "card_number" ∷ "card-number" ∷ []

unfoldable pub is_sensitive : String → Bool
unfolding mentions_any_case
is_sensitive key = any (mentions_any_case key) sensitive_words

abbrev pub sensitive_keys : Span → List Problem
sensitive_keys span =
    map (sensitive_attribute (service span) span.name) (filter is_sensitive (keys span.attributes))

-- The canaries that are not empty and stand in a text.
abbrev pub found_in : (json : String) → List String → List String
found_in json canaries = filter (λ canary. canary != "" && mentions json canary) canaries

-- `dump` is the JSON text of the attributes, the events' attributes and the resource of each span.
module _ (dump : Trace → String) where
  unfoldable pub sensitive_data : Trace → (canaries : List String) → List Problem
  unfolding is_sensitive service mentions
  sensitive_data trace canaries =
      gather sensitive_keys trace.spans ++ map canary_found (found_in (dump trace) canaries)
