-- ===== src/Prometheus/Tests.antt =====
-- A selector, with the suffix that some versions add taken away.
use kubernetes_distributed_t.Prometheus.{metric_selector}
use kubernetes_distributed_t.Common.{[], nat_eq, option_eq, refl, string_eq, ◌∷◌, ◌≡◌}

selects_both :
    metric_selector "refused_spans_total" (("exporter", "a") ∷ [])
    ≡ "{__name__=~\"refused_spans(_total)?\",exporter=\"a\"}"
unfolding metric_selector
selects_both = refl
