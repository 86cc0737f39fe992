-- ===== src/Jaeger.antt =====
-- The client of Jaeger's API (automation/src/txplatform/jaeger.py). HTTP and the parsing of an
-- answer's JSON are parameters: an answer is its status and the spans in it. Times are seconds.
pub mod Waiting
mod Tests
use kubernetes_distributed_t.Traces.{Span, Trace, first, group_traces, service}
use kubernetes_distributed_t.Common.{
  Bool, List, Option, String, [], false, if◌then◌else◌, leb, ltb, nat_eq, none, option_eq, some,
  string_eq, suc, zero, ℕ, ◌+◌, ◌==◌,
}
use kubernetes_distributed_t.Common.Dict.{Dict}
use kubernetes_distributed_t.Common.Exec.{Exec, Result, http_error, ok, raised, ◌>>=◌, ◌>>◌}

pub record Answer : Type 0 where
  pub status : ℕ
  pub spans : List Span

-- What `find_traces` asks for.
pub record Search : Type 0 where
  pub service : String
  pub start : ℕ
  pub end : ℕ
  pub attributes : Dict String String
  pub limit : ℕ

-- The environment of a client: HTTP and the clock.
pub record Api (S : Type 0) : Type 0 where
  pub get : (trace_id : String) → Exec S Answer
  pub find : Search → Exec S Answer
  pub clock : S → ℕ
  pub sleep : ℕ → S → S

-- What the callers make of an answer: a missing one is `missing`, other errors are raised.
abbrev pub traces_of : {A : Type 0} → (missing : A) → (List Trace → A) → Answer → Result A
traces_of missing f answer =
    if answer.status == 404
    then ok missing
    else if leb 400 answer.status
    then raised http_error
    else ok (f (group_traces answer.spans))

module _ {S : Type 0} (api : Api S) where
  unfoldable pub get_trace : (trace_id : String) → Exec S (Option Trace)
  unfolding group_traces
  get_trace trace_id = do
    answer ← api.get trace_id
    λ s. (traces_of none (first (λ t. t.trace_id == trace_id)) answer, s)

  unfoldable pub find_traces : Search → Exec S (List Trace)
  unfolding group_traces
  find_traces search = do answer ← api.find search; λ s. (traces_of [] (λ traces. traces) answer, s)

  -- `trace is not None and until(trace)`
  abbrev pub is_wanted : (until : Trace → Bool) → Option Trace → Bool
  is_wanted until none = false
  is_wanted until (some t) = until t

  -- What one round of the loop does with an answer; `again` is the rest of the loop.
  abbrev pub round :
      (until : Trace → Bool)
      → Result (Option Trace) × S
      → (again : Option Trace → S → Result (Option Trace) × S) → Result (Option Trace) × S
  round until (raised e, s) again = (raised e, s)
  round until (ok latest, s) again =
      if is_wanted until latest then (ok latest, s) else again latest s

  -- The loop of `wait_for_trace`, whose interval is 2; the fuel lasts as long as the timeout.
  unfoldable pub poll :
      (until : Trace → Bool) (trace_id : String) (deadline fuel : ℕ)
      → Option Trace
      → Exec S (Option Trace)
  unfolding get_trace
  poll until trace_id deadline zero latest s = (ok latest, s)
  poll until trace_id deadline (suc fuel) latest s =
      let next =
        round until (get_trace trace_id s)
          (λ found s'. poll until trace_id deadline fuel found (api.sleep 2 s')) in
      if ltb (api.clock s) deadline then next else (ok latest, s)

  unfoldable pub wait_for_trace :
      (trace_id : String) (timeout : ℕ) (until : Trace → Bool) → Exec S (Option Trace)
  unfolding poll
  wait_for_trace trace_id timeout until s =
      poll until trace_id (api.clock s + timeout) timeout none s
