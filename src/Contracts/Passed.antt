-- ===== src/Contracts/Passed.antt =====
-- What a trace is like, if the contract on its flow finds nothing wrong.
use kubernetes_distributed_t.Contracts.Logic.{
  Clean, Shows, check-Shows, pure-Shows, then-Shows, weaken-Shows, when-Shows,
}
use kubernetes_distributed_t.Contracts.Orders.{
  Traced, check_result-Shows, check_trace-Shows, each_stored-Shows, path_result-ok,
}
use kubernetes_distributed_t.Contracts.Flows.{
  FailedFlow, failed_flow, normal_order, path_result, payment_retry, retry_check,
}
use kubernetes_distributed_t.Contracts.{
  Backend, Library, State, all_services, full_path, none_ended, requests,
}
use kubernetes_distributed_t.Records.{RunRecord}
use kubernetes_distributed_t.TraceChecks.Content.{idempotent_replay}
use kubernetes_distributed_t.TraceChecks.Outcome.{error_marking, state_path}
use kubernetes_distributed_t.TraceChecks.Attempts.{retries}
use kubernetes_distributed_t.TraceChecks.Latency.{latency_dominance}
use kubernetes_distributed_t.TraceChecks.{stage_order, stages_present, topology}
use kubernetes_distributed_t.Traces.{Trace}
use kubernetes_distributed_t.Common.{
  refl, Option, String, [], false, is_empty, nat_eq, none, option_eq, some, string_eq, ℕ, ◌∷◌, ◌≡◌,
  ◌≢◌, subst,
}
use kubernetes_distributed_t.Common.Exec.{ok}

-- The trace of an order that went through: no problem in its services and calls, in the order of
-- its stages, in the path of its states or in its marking.
pub record WentThrough (t : Trace) : Type 0 where
  pub topology_holds : topology t all_services [] ≡ []
  pub ordered : stage_order t ≡ []
  pub followed : state_path t full_path ≡ some []
  pub unmarked : error_marking t false ≡ []

-- The trace of an order that failed the way of a flow.
pub record FailedBy (flow : FailedFlow) (t : Trace) : Type 0 where
  pub topology_holds : topology t flow.required flow.forbidden ≡ []
  pub stages_hold : stages_present t flow.stages flow.forbidden_stages ≡ []
  pub ordered : stage_order t ≡ []
  pub followed : state_path t flow.path ≡ some []
  pub marked : error_marking t flow.technical ≡ []
  pub tried_again :
      (stage : String) (n : ℕ) → flow.retried_stage ≡ some (stage, n) → retries t stage n ≡ []

-- The trace of an order whose payment was tried twice: the time went there, and the second
-- attempt was answered as a replay.
pub record TriedTwice (t : Trace) : Type 0 where
  pub tried : retries t "payment.authorize" 2 ≡ []
  pub replayed : idempotent_replay t ≡ []
  pub dominated : latency_dominance t "payment.authorize" 500 1_500_000 ≡ ok []
  pub followed : state_path t full_path ≡ some []

retry_check-Shows :
    {S : Type 0} (retried : Option (String × ℕ)) (t : Trace)
    → Shows {S = S}
        (λ _. (stage : String) (n : ℕ) → retried ≡ some (stage, n) → retries t stage n ≡ [])
        (retry_check retried t)
retry_check-Shows none t = pure-Shows tt _ (λ stage n e. absurd (cc))
retry_check-Shows (some (stage, n)) t =
    weaken-Shows _
      (λ _ h other m e.
        let same : (stage, n) ≡ (other, m) = cc in
        subst (λ (p : String × ℕ). retries t p.0 p.1 ≡ []) same h)
      (check_trace-Shows "retry attempts" (retries t stage n) t)

none_ended-absurd : {status : ℕ} → ¬ (none_ended status ∷ [] ≡ [])
none_ended-absurd h = cc

module _ {S : Type 0} (b : Backend S) (r : RunRecord) (library : Library) (w : State S) where
  -- If the contract of the normal order returns, and there is no finding then, every request that
  -- was answered 201 has its trace stored, complete and sound, and each trace is that of an order
  -- that went through.
  pub normal_order_lem :
      (normal_order b r library w).0 ≡ ok tt
      → Clean (normal_order b r library w).1.context.problems
      → Traced r library all_services (requests r (some 201)) WentThrough
  unfolding normal_order
  normal_order_lem returned clean =
      ((each_stored-Shows b r library (requests r (some 201)) all_services "traces kept" _
          WentThrough
          (λ request t.
            weaken-Shows _
              (λ _ (topology_holds, (ordered, (followed, unmarked))). record {
                topology_holds = topology_holds;
                ordered = ordered;
                followed = path_result-ok (state_path t full_path) followed;
                unmarked = unmarked;
              })
              (then-Shows _ _ (check_trace-Shows "topology" (topology t all_services []) t) (
                then-Shows _ _ (check_trace-Shows "stage order" (stage_order t) t) (
                  then-Shows _ _
                    (check_result-Shows "state events" (path_result (state_path t full_path)) t)
                    (check_trace-Shows "error marking" (error_marking t false) t)))))).at
        w tt returned clean).1

  -- The same of the contract on retries.
  payment_retry_lem :
      (payment_retry b r library w).0 ≡ ok tt
      → Clean (payment_retry b r library w).1.context.problems
      → Traced r library all_services (requests r (some 201)) TriedTwice
  unfolding payment_retry
  payment_retry_lem returned clean =
      ((each_stored-Shows b r library (requests r (some 201)) all_services "retried traces kept" _
          TriedTwice
          (λ request t.
            weaken-Shows _
              (λ _ (tried, (replayed, (dominated, followed))). record {
                tried = tried;
                replayed = replayed;
                dominated = dominated;
                followed = path_result-ok (state_path t full_path) followed;
              })
              (then-Shows _ _
                (check_trace-Shows "retry attempts" (retries t "payment.authorize" 2) t)
                (then-Shows _ _ (check_trace-Shows "idempotent replay" (idempotent_replay t) t) (
                  then-Shows _ _
                    (check_result-Shows "accumulated latency"
                      (latency_dominance t "payment.authorize" 500 1_500_000) t)
                    (check_result-Shows "state events" (path_result (state_path t full_path))
                      t)))))).at
        w tt returned clean).1

  -- If the contract of a failing flow returns, and there is no finding then, some request had the
  -- flow's status, and every such request has its trace stored, complete and sound, and each trace
  -- is that of an order that failed the way of the flow.
  pub failed_flow_lem :
      (flow : FailedFlow)
      → (failed_flow b r library flow w).0 ≡ ok tt
      → Clean (failed_flow b r library flow w).1.context.problems
      → (requests r (some flow.status) ≢ [])
        × Traced r library flow.required (requests r (some flow.status)) (FailedBy flow)
  unfolding failed_flow
  failed_flow_lem flow returned clean =
      let sent = requests r (some flow.status) in
      let (before, (some_sent, traced)) =
        (then-Shows _ _
            (when-Shows (is_empty sent) _
              (check-Shows "traces kept" (none_ended flow.status ∷ []) ""))
            (each_stored-Shows b r library sent flow.required "failure traces kept" _
              (FailedBy flow)
              (λ request t.
                weaken-Shows _
                  (λ _
                      (topology_holds, (stages_hold, (ordered, (followed, (marked, tried_again))))).
                    record {
                      topology_holds = topology_holds;
                      stages_hold = stages_hold;
                      ordered = ordered;
                      followed = path_result-ok (state_path t flow.path) followed;
                      marked = marked;
                      tried_again = tried_again;
                    })
                  (then-Shows _ _
                    (check_trace-Shows "topology" (topology t flow.required flow.forbidden) t)
                    (then-Shows _ _
                      (check_trace-Shows "stages"
                        (stages_present t flow.stages flow.forbidden_stages) t)
                      (then-Shows _ _ (check_trace-Shows "stage order" (stage_order t) t) (
                        then-Shows _ _
                          (check_result-Shows "state events" (path_result (state_path t flow.path))
                            t)
                          (then-Shows _ _
                            (check_trace-Shows "error marking" (error_marking t flow.technical) t)
                            (retry_check-Shows flow.retried_stage t))))))))).at
          w tt returned clean in
      (λ e. absurd (none_ended-absurd (some_sent (rw e refl))), traced)
