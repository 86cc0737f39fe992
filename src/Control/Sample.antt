-- ===== src/Control/Sample.antt =====
-- A small cluster in memory: each workload has one running pod, of the same name.
use mathlib.Core.Option.{get_or}
use kubernetes_distributed_t.Common.{
  List, Option, String, [], arith, contains, eq_iff, false, if◌then◌else◌, is_none, length, map,
  nat_eq, none, option_eq, refl, some, string_eq, true, ℕ, ◌==◌, ◌∷◌, ◌≡◌,
}
use kubernetes_distributed_t.Common.Exec.{Exec, Result, api_error, ok, raised}
use kubernetes_distributed_t.Kube.{Pod}
use kubernetes_distributed_t.Kube
use kubernetes_distributed_t.Control.{Cluster, Rule}
use kubernetes_distributed_t.Control.Laws.{IsKubernetes}

pub record Memory : Type 0 where
  pub counts : String → Option ℕ
  pub rules : String → List Rule

abbrev pub set_at : {A : Type 0} → String → A → (String → A) → String → A
set_at k a f q = if k == q then a else f q

abbrev pub memory_pod : String → Pod
memory_pod name = record {
  name = name;
  uid = "1";
  deletion_timestamp = none;
  phase = "Running";
  conditions = ("Ready", "True") ∷ [];
}

abbrev pub patch_memory : String → ℕ → Exec Memory (Unit {0})
patch_memory w n s =
    if is_none (s.counts w)
    then (raised (api_error 404), s)
    else (ok tt, record s { counts = set_at w (some n) s.counts })

abbrev pub read_memory : Option ℕ → Result (Option ℕ)
read_memory none = raised (api_error 404)
read_memory (some n) = ok (some n)

abbrev pub memory : Cluster
memory = record {
  State = Memory;
  list_pods = λ w s. (ok (memory_pod w ∷ []), s);
  read_pod_uid = λ p s. (ok "1", s);
  read_replicas = λ w s. (read_memory (s.counts w), s);
  patch_scale = patch_memory;
  delete_pod = λ p s. (ok tt, record s { rules = set_at p [] s.rules });
  patch_restarted = λ w s. (ok tt, record s { rules = set_at w [] s.rules });
  put_fault = λ p r s. (ok 201, record s { rules = set_at p (r ∷ s.rules p) s.rules });
  get_faults = λ p s. (ok (s.rules p), s);
  delete_faults = λ p s. (ok (length (s.rules p)), record s { rules = set_at p [] s.rules });
  post_reset = λ p s. (ok tt, s);
  get_payment = λ p o s. (ok 1, s);
  await_rollout = λ w s. (ok tt, s);
}

pub listed : (w p : String) → contains (map (λ q. q.name) (memory_pod w ∷ [])) p ≡ true → p ≡ w
listed w p h = ground (arith, eq_iff w p)

pub unlisted :
    (w p : String)
    → p ≡ w
    → contains (map (λ q. q.name) (Kube.running_pods (memory_pod w ∷ []))) p ≡ false
    → ⊥
unfolding Kube.running_pods
unlisted w p e h = ground (arith, eq_iff w p)

pub emptied : (k q : String) (f : String → List Rule) → f q ≡ [] → set_at k [] f q ≡ []
emptied k q f h = ground arith

pub read_memory_lem : (o r : Option ℕ) → read_memory o ≡ ok r → o ≡ some (get_or r 0)
read_memory_lem none r h = cc
read_memory_lem (some n) r h = ground arith

unfoldable pub memory-IsKubernetes : IsKubernetes memory
memory-IsKubernetes = record {
  scale_of = λ s. s.counts;
  rules_of = λ s. s.rules;
  owner = λ p. p;
  listed_owner = λ w s pods p e h. listed w p (ground arith);
  unlisted = λ w s pods p e o h. absurd (unlisted w p o (ground arith));
  list_quiet = λ w s. (λ v. refl, λ p h. h);
  uid_quiet = λ p s. (λ v. refl, λ q h. h);
  read_quiet = λ w s. (λ v. refl, λ p h. h);
  delete_quiet = λ p s. (λ v. refl, λ q h. emptied p q s.rules h);
  restart_quiet = λ w s. (λ v. refl, λ q h. emptied w q s.rules h);
  get_quiet = λ p s. (λ v. refl, λ q h. h);
  clear_quiet = λ p s. (λ v. refl, λ q h. emptied p q s.rules h);
  reset_quiet = λ p s. (λ v. refl, λ q h. h);
  await_quiet = λ w s. (λ v. refl, λ q h. h);
  read_replicas_lem = λ w s r h. read_memory_lem (s.counts w) r h;
  patch_other = λ w n s v d. ground (arith, eq_iff w v);
  patch_exists = λ w n s. ground (arith, eq_iff w w);
  patch_ok = λ w n s h. ground (arith, eq_iff w w);
  patch_missing = λ w n s h. ground (arith);
  patch_rules = λ w n s p h. ground (arith);
  put_scale = λ p r s v. refl;
  put_other = λ p r s q d h. ground (arith, eq_iff p q);
  clear_ok = λ p s n h. ground (arith, eq_iff p p);
  get_empty = λ p s h. ground arith;
}
