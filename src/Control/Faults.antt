-- ===== src/Control/Faults.antt =====
-- What clearing fault rules leaves, and what an empty list of leftovers means.
use kubernetes_distributed_t.Common.{
  Bool-cases, List, String, [], ap, arith, contains, eq_iff, inl, inr, map, nat_eq, option_eq, refl,
  string_eq, true, ℕ, ◌+◌, ◌==◌, ◌∙◌, ◌∷◌, ◌≡◌, ◌⊎◌,
}
use kubernetes_distributed_t.Common.Exec.{Exec, Keeps, bind-Keeps, bind-eq-ok, ok, pure-Keeps}
use kubernetes_distributed_t.Common.Sort.{contains-sorted}
use kubernetes_distributed_t.Kube.{Pod}
use kubernetes_distributed_t.Kube
use kubernetes_distributed_t.Control.Laws.{IsKubernetes, IsQuiet}
use kubernetes_distributed_t.Control.{
  Cluster, World, clear_faults, clear_pods, lift, running_pods, wait_rollout_complete,
}

module _ (c : Cluster) (k : IsKubernetes c) where
  open k use {scale_of, rules_of, owner}

  -- Compared with `start`: the same replica counts, no pod with rules that had none, the same
  -- journal.
  pub record IsCalm (start w : World c.State) : Type 0 where
    pub counts : (v : String) → scale_of w.cluster v ≡ scale_of start.cluster v
    pub clean : (p : String) → rules_of start.cluster p ≡ [] → rules_of w.cluster p ≡ []
    pub same_journal : w.journal ≡ start.journal

  pub IsCalm-refl : (w : World c.State) → IsCalm w w
  IsCalm-refl w = record { counts = λ v. refl; clean = λ p h. h; same_journal = refl }

  lift-IsCalm :
      {A : Type 0} (start : World c.State) (op : Exec c.State A)
      → IsQuiet scale_of rules_of op
      → Keeps (IsCalm start) (lift op)
  lift-IsCalm start op q = record {
    at = λ w h. record {
      counts = λ v. (q w.cluster).0 v ∙ h.counts v;
      clean = λ p e. (q w.cluster).1 p (h.clean p e);
      same_journal = h.same_journal;
    };
  }

  running_pods-IsCalm :
      (start : World c.State) (v : String) → Keeps (IsCalm start) (running_pods c v)
  unfolding running_pods
  running_pods-IsCalm start v =
      bind-Keeps (lift (c.list_pods v)) _ (lift-IsCalm start (c.list_pods v) (k.list_quiet v))
        (λ pods. pure-Keeps _)

  clear_pods-IsCalm :
      (start : World c.State) (n : ℕ) (pods : List String)
      → Keeps (IsCalm start) (clear_pods c n pods)
  unfolding clear_pods
  clear_pods-IsCalm start n [] = pure-Keeps n
  clear_pods-IsCalm start n (p ∷ pods) =
      bind-Keeps (lift (c.delete_faults p)) _
        (lift-IsCalm start (c.delete_faults p) (k.clear_quiet p))
        (λ m. clear_pods-IsCalm start (n + m) pods)

  pub clear_faults-IsCalm :
      (start : World c.State) (v : String) → Keeps (IsCalm start) (clear_faults c v)
  unfolding clear_faults
  clear_faults-IsCalm start v =
      bind-Keeps (running_pods c v) (clear_pods c 0) (running_pods-IsCalm start v)
        (clear_pods-IsCalm start 0)

  pub wait_rollout_complete-IsCalm :
      (start : World c.State) (v : String) → Keeps (IsCalm start) (wait_rollout_complete c v)
  unfolding wait_rollout_complete
  wait_rollout_complete-IsCalm start v = lift-IsCalm start (c.await_rollout v) (k.await_quiet v)

  -- A successful clearing leaves no rule on any of the pods.
  clear_pods-rules :
      (n : ℕ) (pods : List String) (w : World c.State) (m : ℕ) (p : String)
      → (clear_pods c n pods w).0 ≡ ok m
      → (contains pods p ≡ true) ⊎ (rules_of w.cluster p ≡ [])
      → rules_of (clear_pods c n pods w).1.cluster p ≡ []
  unfolding clear_pods
  clear_pods-rules n [] w m p h (inl there) = cc
  clear_pods-rules n [] w m p h (inr clean) = clean
  clear_pods-rules n (q ∷ pods) w m p h given =
      let (removed, deleted, rest, state) = bind-eq-ok (lift (c.delete_faults q)) _ w h in
      let cleared : (contains pods p ≡ true)
          ⊎ (rules_of (lift (c.delete_faults q) w).1.cluster p ≡ []) =
        elim given [
          | inr clean ↦ inr ((k.clear_quiet q w.cluster).1 p clean)
          | inl there ↦ elim (Bool-cases (q == p)) [
            | inl same ↦ inr (rw (← (eq_iff q p).0 same) (k.clear_ok q w.cluster removed deleted))
            | inr other ↦ inl (ground arith)
          ]
        ] in
      ap (λ (u : World c.State). rules_of u.cluster p) state
      ∙ clear_pods-rules (n + removed) pods (lift (c.delete_faults q) w).1 m p rest cleared

  -- A pod of the service that the listing leaves out has no rule.
  running_pods_lem :
      (v : String) (w : World c.State) (names : List String) (p : String)
      → (running_pods c v w).0 ≡ ok names
      → owner p ≡ v
      → (contains names p ≡ true) ⊎ (rules_of (running_pods c v w).1.cluster p ≡ [])
  unfolding running_pods
  running_pods_lem v w names p h own =
      let (pods, listed, answer, state) = bind-eq-ok (lift (c.list_pods v)) _ w h in
      elim (Bool-cases (contains (map (λ q. q.name) (Kube.running_pods pods)) p)) [
        | inl there ↦
            inl (ground (arith, contains-sorted p (map (λ q. q.name) (Kube.running_pods pods))))
        | inr absent ↦ inr (
            ap (λ (u : World c.State). rules_of u.cluster p) state
            ∙ k.unlisted v w.cluster pods p listed own absent)
      ]

  -- After a successful clearing no pod of the service has a rule.
  pub clear_faults_clean :
      (v : String) (w : World c.State) (m : ℕ) (p : String)
      → (clear_faults c v w).0 ≡ ok m
      → owner p ≡ v
      → rules_of (clear_faults c v w).1.cluster p ≡ []
  unfolding clear_faults
  clear_faults_clean v w m p h own =
      let (names, listed, cleared, state) = bind-eq-ok (running_pods c v) (clear_pods c 0) w h in
      ap (λ (u : World c.State). rules_of u.cluster p) state
      ∙ clear_pods-rules 0 names (running_pods c v w).1 m p cleared
          (running_pods_lem v w names p listed own)
