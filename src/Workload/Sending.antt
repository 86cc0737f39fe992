-- ===== src/Workload/Sending.antt =====
-- What is sent and kept of a request: `_order_reference`, `_send` and the loop of `run_steps`,
-- with the requests of a step one after the other; the program sends them side by side. Waiting,
-- tokens and HTTP are calls of the environment.
use mathlib.Core.Option.{get_or}
use kubernetes_distributed_t.Workload.{Offset, RequestRecord, WorkloadResult, schedule, tamper}
use kubernetes_distributed_t.Schema.{
  Identity, OrderTemplate, WorkloadStep, no_identity, order_reader, scenario_runner, tampered,
}
use kubernetes_distributed_t.Common.{
  Bool, List, Option, String, [], if◌then◌else◌, nat_eq, none, option_eq, some, string_eq, suc, ℕ,
  ◌++◌, ◌-◌, ◌==◌, ◌∷◌,
}
use kubernetes_distributed_t.Common.Dict.{Dict, lookup}
use kubernetes_distributed_t.Common.Exec.{
  http_error, Exec, Result, gets, ok, pure, raised, ◌>>=◌, ◌>>◌,
}
use kubernetes_distributed_t.Common.Texts.{concat, split}

-- The members of the body's JSON object, as texts; none where the body is no object. The names of
-- the headers are in small letters.
pub record Response : Type 0 where
  pub status : ℕ
  pub headers : Dict String String
  pub members : Option (Dict String String)

-- The headers of a request, without the ones that do not depend on the step.
pub record RequestHeaders : Type 0 where
  pub correlation_id : String
  pub scenario_id : String
  pub run_id : String
  pub api_key : String
  pub authorization : Option (List ℕ)
  pub debug_trace : Bool

pub record Sender (S : Type 0) : Type 0 where
  pub clock : S → ℕ
  pub wait_until : (started : ℕ) → Offset → S → S
  pub sleep : (thousandths : ℕ) → S → S
  pub token : (client_id : String) → Exec S (List ℕ)
  pub post : OrderTemplate → RequestHeaders → Exec S Response
  -- The id that the pattern _ORDER_ID finds in a location, and numbers as texts, the second in at
  -- least five digits.
  pub order_in : (location : String) → String
  pub str : ℕ → String
  pub five_digits : ℕ → String

abbrev pub member : String → Option (Dict String String) → String
member key none = ""
member key (some members) = get_or (lookup key members) ""

abbrev pub header : String → Response → String
header name response = get_or (lookup name response.headers) ""

-- `_order_reference`
unfoldable pub order_reference : (order_in : String → String) → Response → String × String
order_reference order_in response =
    let named = member "orderId" response.members in
    let order_id = if named == "" then order_in (header "location" response) else named in
    (order_id, member "state" response.members)

abbrev pub second_of_four : List String → String
second_of_four (version ∷ trace_id ∷ span_id ∷ flags ∷ []) = trace_id
second_of_four _ = ""

-- orders.trace_id_of; 45 is `-`
unfoldable pub trace_id_of : Response → String
trace_id_of response = second_of_four (split 45 (header "traceresponse" response))

-- What is kept of a request that was answered.
abbrev pub answered :
    (order_in : String → String) (step_index : ℕ)
    → WorkloadStep
    → (sequence : ℕ) → Offset
    → (began ended : ℕ) → Response
    → RequestRecord
answered order_in step_index step sequence offset began ended response =
    let (order_id, state) = order_reference order_in response in
    record {
      step = step_index;
      sequence = sequence;
      label = step.label;
      planned_offset = offset;
      started_at = began;
      duration = ended - began;
      status = response.status;
      correlation_id = header "x-correlation-id" response;
      kong_request_id = header "x-kong-request-id" response;
      trace_id = trace_id_of response;
      order_id = order_id;
      state = state;
      error = "";
    }

-- What is kept of a request that got no answer.
abbrev pub unanswered :
    (step_index : ℕ)
    → WorkloadStep
    → (sequence : ℕ) → Offset
    → (began ended : ℕ) → (correlation_id : String) → RequestRecord
unanswered step_index step sequence offset began ended correlation_id = record {
  step = step_index;
  sequence = sequence;
  label = step.label;
  planned_offset = offset;
  started_at = began;
  duration = ended - began;
  status = 0;
  correlation_id = correlation_id;
  kong_request_id = "";
  trace_id = "";
  order_id = "";
  state = "";
  error = "HTTPError";
}

module _ {S : Type 0} (env : Sender S) (run_id scenario_id : String) where
  abbrev pub plain : Exec S (List ℕ) → Exec S (Option (List ℕ))
  plain m = m >>= λ token. pure (some token)

  unfoldable pub authorization : Identity → Exec S (Option (List ℕ))
  unfolding tamper
  authorization scenario_runner = plain (env.token "scenario-runner")
  authorization order_reader = plain (env.token "order-reader")
  authorization tampered = plain (env.token "scenario-runner" >>= λ token. λ s. (tamper token, s))
  authorization no_identity = pure none

  abbrev pub correlation_id : (step_index sequence : ℕ) → String
  correlation_id step_index sequence =
      concat (run_id ∷ "-" ∷ env.str step_index ∷ "-" ∷ env.five_digits sequence ∷ [])

  -- `except httpx.HTTPError`: a request without an answer is kept too.
  abbrev pub kept :
      (step_index : ℕ)
      → WorkloadStep
      → (sequence : ℕ) → Offset
      → (began : ℕ) → Result Response × S
      → Result RequestRecord × S
  kept step_index step sequence offset began (ok response, s) =
      (ok (answered env.order_in step_index step sequence offset began (env.clock s) response), s)
  kept step_index step sequence offset began (raised http_error, s) = (
    ok (
        unanswered step_index step sequence offset began (env.clock s)
          (correlation_id step_index sequence)),
    s,
  )
  kept step_index step sequence offset began (raised e, s) = (raised e, s)

  -- `_send`
  unfoldable pub send :
      (step_index : ℕ) → WorkloadStep → (started : ℕ) (sequence : ℕ) → Offset → Exec S RequestRecord
  unfolding authorization order_reference trace_id_of
  send step_index step started sequence offset = do
    (λ s. (ok tt, env.wait_until started offset s))
    bearer ← authorization step.identity
    λ s. kept step_index step sequence offset (env.clock s) (
        env.post step.order
          (record {
            correlation_id = correlation_id step_index sequence;
            scenario_id = scenario_id;
            run_id = run_id;
            api_key = concat ("canary-" ∷ run_id ∷ []);
            authorization = bearer;
            debug_trace = step.debug;
          })
          s)

  -- `for sequence, offset in enumerate(offsets)`
  unfoldable pub send_all :
      (step_index : ℕ)
      → WorkloadStep
      → (started : ℕ) (sequence : ℕ) → List Offset
      → Exec S (List RequestRecord)
  unfolding send
  send_all step_index step started sequence [] = pure []
  send_all step_index step started sequence (offset ∷ rest) = do
    first ← send step_index step started sequence offset
    others ← send_all step_index step started (suc sequence) rest
    pure (first ∷ others)

  unfoldable pub steps_from : (index : ℕ) → List WorkloadStep → Exec S (List RequestRecord)
  unfolding send_all schedule
  steps_from index [] = pure []
  steps_from index (step ∷ steps) = do
    (λ s. (ok tt, if step.delay_seconds == 0 then s else env.sleep step.delay_seconds s))
    started ← gets env.clock
    records ← send_all index step started 0 (schedule step)
    others ← steps_from (suc index) steps
    pure (records ++ others)

  unfoldable pub run_steps : List WorkloadStep → Exec S WorkloadResult
  unfolding steps_from
  run_steps steps = do
    began ← gets env.clock
    requests ← steps_from 0 steps
    ended ← gets env.clock
    pure (record { requests = requests; started_at = began; finished_at = ended })
