-- ===== src/Control/Laws.antt =====
-- What the code relies on of the Kubernetes API and of the services' management endpoints.
use mathlib.Core.Option.{get_or}
use kubernetes_distributed_t.Common.{
  List, Option, String, [], contains, false, is_none, map, nat_eq, none, option_eq, some, string_eq,
  true, ℕ, ◌≡◌, ◌≢◌,
}
use kubernetes_distributed_t.Common.Exec.{Exec, api_error, ok, raised}
use kubernetes_distributed_t.Kube.{Pod}
use kubernetes_distributed_t.Kube
use kubernetes_distributed_t.Control.{Cluster, Rule}

-- A call that scales nothing and adds no fault rule: whatever it answers, every replica count is
-- as before, and a pod without rules still has none.
abbrev pub IsQuiet :
    {S A R : Type 0} → (S → String → Option ℕ) → (S → String → List R) → Exec S A → Type 0
IsQuiet scale_of rules_of op =
    (s : _)
    → ((w : String) → scale_of (op s).1 w ≡ scale_of s w)
      × ((p : String) → rules_of s p ≡ [] → rules_of (op s).1 p ≡ [])

pub record IsKubernetes (c : Cluster) : Type 0 where
  -- The replica count of a workload; none if there is no such workload.
  pub scale_of : c.State → String → Option ℕ
  -- The fault rules of a pod that runs and is not being deleted; none for any other name.
  pub rules_of : c.State → String → List Rule
  -- The workload that a pod belongs to.
  pub owner : String → String
  pub listed_owner :
      (w : String) (s : c.State) (pods : List Pod) (p : String)
      → (c.list_pods w s).0 ≡ ok pods
      → contains (map (λ q. q.name) pods) p ≡ true
      → owner p ≡ w
  -- A listing shows every running pod of its workload.
  pub unlisted :
      (w : String) (s : c.State) (pods : List Pod) (p : String)
      → (c.list_pods w s).0 ≡ ok pods
      → owner p ≡ w
      → contains (map (λ q. q.name) (Kube.running_pods pods)) p ≡ false
      → rules_of (c.list_pods w s).1 p ≡ []
  pub list_quiet : (w : String) → IsQuiet scale_of rules_of (c.list_pods w)
  pub uid_quiet : (p : String) → IsQuiet scale_of rules_of (c.read_pod_uid p)
  pub read_quiet : (w : String) → IsQuiet scale_of rules_of (c.read_replicas w)
  pub delete_quiet : (p : String) → IsQuiet scale_of rules_of (c.delete_pod p)
  pub restart_quiet : (w : String) → IsQuiet scale_of rules_of (c.patch_restarted w)
  pub get_quiet : (p : String) → IsQuiet scale_of rules_of (c.get_faults p)
  pub clear_quiet : (p : String) → IsQuiet scale_of rules_of (c.delete_faults p)
  pub reset_quiet : (p : String) → IsQuiet scale_of rules_of (c.post_reset p)
  pub await_quiet : (w : String) → IsQuiet scale_of rules_of (c.await_rollout w)
  -- The API server reports the replica count that it keeps.
  pub read_replicas_lem :
      (w : String) (s : c.State) (r : Option ℕ)
      → (c.read_replicas w s).0 ≡ ok r
      → scale_of s w ≡ some (get_or r 0)
  -- A patch of one workload leaves the others, and creates and removes none; one that succeeds
  -- sets the count; it answers 404 only if there is no such workload.
  pub patch_other :
      (w : String) (n : ℕ) (s : c.State) (v : String)
      → w ≢ v
      → scale_of (c.patch_scale w n s).1 v ≡ scale_of s v
  pub patch_exists :
      (w : String) (n : ℕ) (s : c.State)
      → is_none (scale_of (c.patch_scale w n s).1 w) ≡ is_none (scale_of s w)
  pub patch_ok :
      (w : String) (n : ℕ) (s : c.State)
      → (c.patch_scale w n s).0 ≡ ok tt
      → scale_of (c.patch_scale w n s).1 w ≡ some n
  pub patch_missing :
      (w : String) (n : ℕ) (s : c.State)
      → (c.patch_scale w n s).0 ≡ raised (api_error 404)
      → scale_of s w ≡ none
  pub patch_rules :
      (w : String) (n : ℕ) (s : c.State) (p : String)
      → rules_of s p ≡ []
      → rules_of (c.patch_scale w n s).1 p ≡ []
  pub put_scale :
      (p : String) (r : Rule) (s : c.State) (v : String)
      → scale_of (c.put_fault p r s).1 v ≡ scale_of s v
  pub put_other :
      (p : String) (r : Rule) (s : c.State) (q : String)
      → p ≢ q
      → rules_of s q ≡ []
      → rules_of (c.put_fault p r s).1 q ≡ []
  pub clear_ok :
      (p : String) (s : c.State) (n : ℕ)
      → (c.delete_faults p s).0 ≡ ok n
      → rules_of (c.delete_faults p s).1 p ≡ []
  pub get_empty :
      (p : String) (s : c.State)
      → (c.get_faults p s).0 ≡ ok []
      → rules_of (c.get_faults p s).1 p ≡ []
