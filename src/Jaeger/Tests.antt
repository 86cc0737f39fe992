-- ===== src/Jaeger/Tests.antt =====
-- Waiting for a trace that is stored from the third second on.
use kubernetes_distributed_t.Jaeger.Waiting.{IsTimed, Settled, wait_for_trace-Settled}
use kubernetes_distributed_t.Jaeger.{Answer, Api, wait_for_trace}
use kubernetes_distributed_t.Traces.{Trace}
use kubernetes_distributed_t.Common.{
  Bool, [], arith, if◌then◌else◌, ltb, nat_eq, option_eq, string_eq, true, ℕ, ◌+◌, ◌∷◌,
}
use kubernetes_distributed_t.Common.Exec.{ok}

abbrev late_answer : ℕ → Answer
late_answer s = record {
  status = if ltb s 3 then 404 else 200;
  spans =
      record {
        trace_id = "t1";
        span_id = "1";
        parent_span_id = "";
        name = "POST /orders";
        kind = "SERVER";
        start_unix_nano = 0;
        end_unix_nano = 1;
        status = "UNSET";
        attributes = [];
        events = [];
        resource = [];
      }
      ∷ [];
}

abbrev late_api : Api ℕ
late_api = record {
  get = λ id s. (ok (late_answer s), s);
  find = λ search s. (ok (late_answer s), s);
  clock = λ s. s;
  sleep = λ n s. s + n;
}

late_api-IsTimed : IsTimed late_api
late_api-IsTimed = record { get_goes_on = λ id s. omega arith; sleep_takes = λ n s. omega arith }

abbrev any_trace : Trace → Bool
any_trace t = true

wait_for_trace-Settled_example :
    Settled late_api any_trace (0 + 60) (wait_for_trace late_api "t1" 60 any_trace 0)
wait_for_trace-Settled_example =
    wait_for_trace-Settled late_api late_api-IsTimed any_trace "t1" 60 0
