-- ===== src/Kube.antt =====
-- Access to the cluster (automation/src/txplatform/kube.py): the context guard, the readiness
-- rules of workloads, pods and nodes, and the polling loop. The Kubernetes API is not modelled:
-- these functions take what it answers.
pub mod Waiting
mod Tests
use mathlib.Core.Option.{get_or}
use kubernetes_distributed_t.Common.{
  Bool, List, Option, String, [], all, any, contains, false, filter, if◌then◌else◌, is_empty,
  is_none, leb, ltb, nat_eq, none, not, option_eq, some, string_eq, suc, zero, ℕ, ◌!=◌, ◌&&◌, ◌+◌,
  ◌==◌, ◌∷◌,
}
use kubernetes_distributed_t.Common.Exec.{Exec, Result, api_error, ok, raised, timeout_error}

abbrev pub cluster_name : String
cluster_name = "txplatform"

-- f"kind-{CLUSTER_NAME}"
abbrev pub context : String
context = "kind-txplatform"

abbrev pub ns_gateway : String
ns_gateway = "gateway-system"

abbrev pub ns_app : String
ns_app = "transaction-platform"

abbrev pub ns_observability : String
ns_observability = "observability"

pub data GuardError : Type 0 where
  wrong_context : (context_name : String) → GuardError
  not_local : (context_name server_url : String) → GuardError

-- `hostname` is `urlparse(url).hostname`; `none` where the check passes.
unfoldable pub check_context_is_local :
    (hostname : String → Option String) (context_name server_url : String) → Option GuardError
check_context_is_local hostname context_name server_url =
    if context_name != context
    then some (wrong_context context_name)
    else if not
        (contains ("127.0.0.1" ∷ "localhost" ∷ "::1" ∷ []) (get_or (hostname server_url) ""))
    then some (not_local context_name server_url)
    else none

pub record Deployment : Type 0 where
  pub generation : ℕ
  pub replicas : Option ℕ
  pub observed_generation : Option ℕ
  pub updated_replicas : Option ℕ
  pub available_replicas : Option ℕ
  pub status_replicas : Option ℕ

abbrev at_least : Option ℕ → ℕ → Bool
at_least none n = false
at_least (some m) n = leb n m

unfoldable pub deployment_available : Deployment → Bool
deployment_available d =
    let desired = get_or d.replicas 0 in
    at_least d.observed_generation d.generation
    && (get_or d.updated_replicas 0 == desired
        && (get_or d.available_replicas 0 == desired && get_or d.status_replicas 0 == desired))

pub record StatefulSet : Type 0 where
  pub replicas : Option ℕ
  pub ready_replicas : Option ℕ
  pub current_replicas : Option ℕ

unfoldable pub statefulset_ready : StatefulSet → Bool
statefulset_ready s =
    let desired = get_or s.replicas 0 in
    get_or s.ready_replicas 0 == desired && get_or s.current_replicas 0 == desired

-- A condition of a pod or a node: its type and its status.
pub record Pod : Type 0 where
  pub name : String
  pub uid : String
  pub deletion_timestamp : Option ℕ
  pub phase : String
  pub conditions : List (String × String)

abbrev pub is_ready_condition : String × String → Bool
is_ready_condition c = c.0 == "Ready" && c.1 == "True"

unfoldable pub is_pod_ready : Pod → Bool
is_pod_ready pod = any is_ready_condition pod.conditions

-- The filter of `running_pods`, over the pods that the API lists for a selector.
unfoldable pub running_pods : List Pod → List Pod
running_pods pods = filter (λ p. is_none p.deletion_timestamp && p.phase == "Running") pods

unfoldable pub ready_pods : List Pod → List Pod
unfolding running_pods is_pod_ready
ready_pods pods = filter is_pod_ready (running_pods pods)

-- Each node is the list of its conditions.
unfoldable pub nodes_ready : List (List (String × String)) → Bool
nodes_ready nodes = not (is_empty nodes) && all (λ node. any is_ready_condition node) nodes

-- What one round of `wait_for` does with the predicate's answer; `again` is the rest of the loop.
abbrev pub settle :
    {S T : Type 0} → Result (Option T) → S → Option (Result T × S) → Option (Result T × S)
settle (ok (some v)) s again = some (ok v, s)
settle (ok none) s again = again
settle (raised (api_error _)) s again = again
settle (raised e) s again = some (raised e, s)

-- The loop of `wait_for`. The clock and the sleep are the environment's; the result is `none`
-- where the fuel runs out.
module _ {S T : Type 0} (clock : S → ℕ) (sleep : ℕ → S → S) (predicate : Exec S (Option T)) where
  unfoldable pub poll : (interval deadline fuel : ℕ) → S → Option (Result T × S)
  poll interval deadline zero s = none
  poll interval deadline (suc fuel) s =
      let again = poll interval deadline fuel (sleep interval (predicate s).1) in
      let settled = settle (predicate s).0 (predicate s).1 again in
      if ltb (clock s) deadline then settled else some (raised timeout_error, s)

  unfoldable pub wait_for : (timeout interval : ℕ) → S → Option (Result T × S)
  unfolding poll
  wait_for timeout interval s = poll interval (clock s + timeout) (suc timeout) s
