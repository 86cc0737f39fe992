-- ===== src/Experiment/Checking.antt =====
-- The pre-flight: `preflight`, with the problems that it reports.
use kubernetes_distributed_t.Experiment.{Phases}
use kubernetes_distributed_t.Schema.{downstream_services}
use kubernetes_distributed_t.Kube.{ns_app, ns_gateway, ns_observability}
use kubernetes_distributed_t.Common.{
  Bool, List, String, [], if◌then◌else◌, is_empty, map, nat_eq, not, option_eq, string_eq, ℕ, ◌!=◌,
  ◌++◌, ◌∷◌,
}
use kubernetes_distributed_t.Common.Exec.{
  Error, Exec, Result, keyboard_interrupt, ok, pure, raised, ◌>>=◌, ◌>>◌,
}

-- The problems that the pre-flight reports.
pub data Issue : Type 0 where
  not_available not_ready : (namespace name : String) → Issue
  failed_query : (namespace name : String) → Error → Issue
  gateway_answered : (status : ℕ) → Issue
  not_usable : Error → Issue
  leftovers : List (String × ℕ) → Issue

-- `except Exception as error`: what it catches becomes a value, and Ctrl+C does not.
abbrev pub caught : {S A : Type 0} → (Error → A) → Result A × S → Result A × S
caught f (ok a, s) = (ok a, s)
caught f (raised keyboard_interrupt, s) = (raised keyboard_interrupt, s)
caught f (raised e, s) = (ok (f e), s)

-- REQUIRED_DEPLOYMENTS and REQUIRED_STATEFULSETS, one pair for each
abbrev pub required_deployments : List (String × String)
required_deployments =
    map (λ name. (ns_app, name)) ("order-service" ∷ downstream_services ++ "keycloak" ∷ [])
    ++ (map (λ name. (ns_gateway, name)) ("kong-gateway" ∷ "kong-controller" ∷ [])
        ++ map (λ name. (ns_observability, name))
            ("jaeger-collector" ∷ "jaeger-query" ∷ "prometheus-server" ∷ []))

abbrev pub required_statefulsets : List (String × String)
required_statefulsets = (ns_observability, "opensearch-traces") ∷ []

-- `[issue] if test else []`
abbrev pub issue_if : Bool → Issue → List Issue
issue_if b issue = if b then issue ∷ [] else []

module _ {S : Type 0} (p : Phases S) where
  -- The loop over the deployments; each query's own exception is reported.
  unfoldable pub deployment_issues : List (String × String) → Exec S (List Issue)
  deployment_issues [] = pure []
  deployment_issues ((namespace, name) ∷ rest) = do
    found ← (λ s.
        caught (λ e. failed_query namespace name e ∷ [])
          ((p.deployment_available namespace name >>= λ available.
              pure (issue_if (not available) (not_available namespace name)))
            s))
    others ← deployment_issues rest
    pure (found ++ others)

  unfoldable pub statefulset_issues : List (String × String) → Exec S (List Issue)
  statefulset_issues [] = pure []
  statefulset_issues ((namespace, name) ∷ rest) = do
    ready ← p.statefulset_ready namespace name
    others ← statefulset_issues rest
    pure (issue_if (not ready) (not_ready namespace name) ++ others)

  -- Where the token fails, what the gateway's status told is kept.
  abbrev pub token_issues : (status : ℕ) → Exec S (List Issue)
  token_issues status s =
      let told = issue_if (status != 401) (gateway_answered status) in
      caught (λ e. told ++ not_usable e ∷ []) ((p.token "scenario-runner" >> pure told) s)

  abbrev pub gateway_issues : Exec S (List Issue)
  gateway_issues s = caught (λ e. not_usable e ∷ []) ((p.gateway_status >>= token_issues) s)

  -- The rest of the pre-flight, where nothing was found before.
  abbrev pub unless_found : List Issue → Exec S (List Issue)
  unless_found [] = do
    gateway ← gateway_issues
    found ← p.leftover_faults
    pure (gateway ++ issue_if (not (is_empty found)) (leftovers found))
  unless_found (issue ∷ issues) = pure (issue ∷ issues)

  unfoldable pub preflight : Exec S (List Issue)
  unfolding deployment_issues statefulset_issues
  preflight = do
    deployments ← deployment_issues required_deployments
    statefulsets ← statefulset_issues required_statefulsets
    unless_found (deployments ++ statefulsets)
