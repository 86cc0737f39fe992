-- ===== src/Contracts/Snapshots.antt =====
-- The snapshot of the counters before the traffic.
use mathlib.Core.Option.{get_or}
use kubernetes_distributed_t.Prometheus
use kubernetes_distributed_t.Schema.{TelemetryExpectations}
use kubernetes_distributed_t.Contracts.Verify.{metric_keys, totals, keys_of, snapshot_metrics}
use kubernetes_distributed_t.Contracts.{Backend, metrics, total_of}
use kubernetes_distributed_t.Records.{RunRecord}
use kubernetes_distributed_t.Common.{
  both, is_empty, is_empty_iff, map, ◌≢◌, List, all, all_iff, none, some, ◌==◌, [], ◌∷◌, refl,
  if_holds, Option, All, List, String, false, is_some, leb, map, nat_eq, option_eq, refl, string_eq,
  true, ℕ, ◌≡◌,
}
use kubernetes_distributed_t.Common.Dict.{Dict, lookup}
use kubernetes_distributed_t.Common.Exec.{bind_ok, pure, ◌>>=◌, Exec, ok}

-- A Prometheus that answers every query.
pub record Answers {S : Type 0} (b : Backend S) : Type 0 where
  pub answer :
      (e : String) (s : S)
      → (p : Prometheus.Payload) × ((b.prometheus e s).0 ≡ ok p)
        × (leb 400 p.http_status ≡ false)
        × (p.status ≡ "success")

-- Keys that all have a metric.
abbrev AreKnown : List String → Type 0
AreKnown names = All (λ key. is_some (lookup key metrics) ≡ true) names

table_known :
    all
      (λ (entry : String × List String). all (λ key. is_some (lookup key metrics)) entry.1)
      metric_keys
    ≡ true
table_known = refl

lookup-AreKnown :
    (contract : String) (table : Dict String (List String))
    → all
        (λ (entry : String × List String). all (λ key. is_some (lookup key metrics)) entry.1)
        table
      ≡ true
    → AreKnown (get_or (lookup contract table) [])
lookup-AreKnown contract [] h = tt
lookup-AreKnown contract ((name, names) ∷ table) h =
    let (here, there) =
      both (all (λ key. is_some (lookup key metrics)) names)
        (all (λ (entry : String × List String). all (λ key. is_some (lookup key metrics)) entry.1)
          table)
        h in
    if_holds (λ o. AreKnown (get_or o [])) (name == contract) (some names) (lookup contract table)
      (λ same. (all_iff (λ key. is_some (lookup key metrics)) names).0 here)
      (λ other. lookup-AreKnown contract table there)

keys_of-AreKnown : (telemetry : Option TelemetryExpectations) → AreKnown (keys_of telemetry)
keys_of-AreKnown none = tt
keys_of-AreKnown (some spec) = lookup-AreKnown spec.contract metric_keys table_known

module _ {S : Type 0} (b : Backend S) (answers : Answers b) where
  query_answered :
      (e : String) (s : S)
      → (samples : List Prometheus.Sample) × ((Prometheus.query b.prometheus e s).0 ≡ ok samples)
  unfolding Prometheus.query Prometheus.parse_vector
  query_answered e s =
      let (p, sent, good, fine) = answers.answer e s in
      (
        p.result,
        rw
            (
              bind_ok (b.prometheus e)
                  (λ (response : Prometheus.Payload) s'. (
                    Prometheus.raise_for_status response.http_status
                        (Prometheus.parse_vector response),
                    s',
                  ))
                  s sent,
              good,
              fine,
            )
            refl,
      )

  total_known :
      (o : Option String) (s : S) → is_some o ≡ true → (n : ℕ) × ((total_of b o s).0 ≡ ok n)
  unfolding Prometheus.total
  total_known none s h = absurd (cc)
  total_known (some e) s h =
      let (samples, found) = query_answered e s in
      (
        Prometheus.sum samples,
        rw
            (bind_ok (Prometheus.query b.prometheus e) (λ found. pure (Prometheus.sum found)) s
              found)
            refl,
      )

  totals_known :
      (names : List String) (s : S)
      → AreKnown names
      → (found : Dict String ℕ) × ((totals b names s).0 ≡ ok found)
        × (map (λ entry. entry.0) found ≡ names)
  unfolding totals
  totals_known [] s h = ([], refl, refl)
  totals_known (name ∷ names) s (here, there) =
      let first = total_of b (lookup name metrics) in
      let (n, counted) = total_known (lookup name metrics) s here in
      let (found, rest, same) = totals_known names (first s).1 there in
      (
        (name, n) ∷ found,
        rw
            (
              bind_ok first (λ value. totals b names >>= λ rest. pure ((name, value) ∷ rest)) s
                  counted,
              bind_ok (totals b names) (λ rest. pure ((name, n) ∷ rest)) (first s).1 rest,
            )
            refl,
        rw same refl,
      )

  -- If Prometheus answers every query, the snapshot succeeds, and where the contract has counters
  -- the record then holds exactly those, in their order.
  pub snapshot_metrics_lem :
      (telemetry : Option TelemetryExpectations) (r : RunRecord) (s : S)
      → (after : RunRecord) × ((snapshot_metrics b telemetry r s).0 ≡ ok after)
        × (keys_of telemetry ≢ [] → map (λ entry. entry.0) after.metrics_before ≡ keys_of telemetry)
  unfolding snapshot_metrics
  snapshot_metrics_lem telemetry r s =
      let (found, counted, same) =
        totals_known (keys_of telemetry) s (keys_of-AreKnown telemetry) in
      if_holds
        (λ (m : Exec S RunRecord).
          (after : RunRecord) × ((m s).0 ≡ ok after)
          × (keys_of telemetry ≢ []
              → map (λ entry. entry.0) after.metrics_before ≡ keys_of telemetry))
        (is_empty (keys_of telemetry)) (pure r)
        (totals b (keys_of telemetry) >>= λ found. pure (record r { metrics_before = found }))
        (λ empty. (r, refl, λ filled. absurd (filled ((is_empty_iff (keys_of telemetry)).0 empty))))
        (λ filled. (
          record r { metrics_before = found },
          rw
              (bind_ok (totals b (keys_of telemetry))
                (λ found. pure (record r { metrics_before = found })) s counted)
              refl,
          λ _. same,
        ))
