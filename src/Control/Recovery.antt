-- ===== src/Control/Recovery.antt =====
-- The journal says how to undo what was done: an invariant of every operator action, also where
-- an action stops in the middle.
use kubernetes_distributed_t.Common.{
  All, Bool, Bool-cases, List, Option-cases, String, [], any, ap, arith, contains,
  contains-map-filter, eq_iff, false, inl, inr, is_none, map, nat_eq, none, option_eq, refl, some,
  string_eq, sym, true, ℕ, ◌!=◌, ◌++◌, ◌+◌, ◌==◌, ◌||◌, ◌∙◌, ◌∷◌, ◌≡◌, ◌≢◌,
}
use kubernetes_distributed_t.Common.Exec.{
  Exec, Keeps, Result, and_then, and_then-Keeps, bind-Keeps, bind-Keeps_with, bind-eq-ok, for_each,
  for_each-Keeps, for_each-Keeps_with, if-Keeps, ok, pure, pure-Keeps, raise-Keeps, raised,
  runtime_error, ◌>>◌,
}
use kubernetes_distributed_t.Common.Sort.{contains-sorted, sorted}
use kubernetes_distributed_t.Kube.{Pod}
use kubernetes_distributed_t.Kube
use kubernetes_distributed_t.Schema.{
  FaultSpec, Replicas, all_replicas, one_replica, service_name, mode_name, to_rule,
}
use kubernetes_distributed_t.Journal.{Entry}
use kubernetes_distributed_t.Journal.Plan.{is_fault_of, first_original, or_else}
use kubernetes_distributed_t.Control.Laws.{IsKubernetes, IsQuiet}
use kubernetes_distributed_t.Control.{
  Cluster, Rule, World, apply_fault, clear_faults, clear_pods, current_replicas, delete_first,
  inject, inject_into, journal_record, lift, ready_pods, reset_circuit_breakers, restore_replicas,
  rollout_restart, running_pods, scale, targets, wait_rollout_complete, delete_pod,
}

pub first_original-snoc :
    (w : String) (es : List Entry) (e : Entry)
    → first_original w (es ++ e ∷ []) ≡ or_else (first_original w es) (first_original w (e ∷ []))
first_original-snoc w [] e = refl
first_original-snoc w (Entry.fault s p o m ∷ es) e = first_original-snoc w es e
first_original-snoc w (Entry.scale v n r ∷ es) e = ground (arith, first_original-snoc w es e)
first_original-snoc w (Entry.rollout_restart v ∷ es) e = first_original-snoc w es e
first_original-snoc w (Entry.delete_pod v p u ∷ es) e = first_original-snoc w es e
first_original-snoc w (Entry.other k v ∷ es) e = first_original-snoc w es e

pub any-snoc {ℓ} :
    {A : Type ℓ} (f : A → Bool) (xs : List A) (x : A) → any f (xs ++ x ∷ []) ≡ (any f xs || f x)
any-snoc f [] x = ground arith
any-snoc f (y ∷ xs) x = ground (arith, any-snoc f xs x)

module _ (c : Cluster) (k : IsKubernetes c) (start : c.State) where
  open k use {scale_of, rules_of, owner}

  -- Since `start`: a workload with no journaled scaling has the count that it had; the first
  -- journaled count of any other is the one that it had; no workload came or went; and a pod has
  -- fault rules only if a fault of its service is journaled.
  pub record IsJournaled (w : World c.State) : Type 0 where
    pub unscaled :
        (v : String) → first_original v w.journal ≡ none → scale_of w.cluster v ≡ scale_of start v
    pub original :
        (v : String) (n : ℕ) → first_original v w.journal ≡ some n → scale_of start v ≡ some n
    pub same_workloads : (v : String) → is_none (scale_of w.cluster v) ≡ is_none (scale_of start v)
    pub faultless :
        (p : String) → any (is_fault_of (owner p)) w.journal ≡ false → rules_of w.cluster p ≡ []

  pub lift-IsJournaled :
      {A : Type 0} (op : Exec c.State A)
      → IsQuiet scale_of rules_of op
      → Keeps IsJournaled (lift op)
  lift-IsJournaled op q = record {
    at = λ w h. record {
      unscaled = λ v e. (q w.cluster).0 v ∙ h.unscaled v e;
      original = h.original;
      same_workloads = λ v. ap is_none ((q w.cluster).0 v) ∙ h.same_workloads v;
      faultless = λ p e. (q w.cluster).1 p (h.faultless p e);
    };
  }

  -- An entry that records no scaling.
  pub record-IsJournaled :
      (e : Entry)
      → ((v : String) → first_original v (e ∷ []) ≡ none)
      → Keeps IsJournaled (journal_record e)
  record-IsJournaled e quiet = record {
    at = λ w h. record {
      unscaled = λ v n. h.unscaled v (ground (arith, first_original-snoc v w.journal e));
      original =
          λ v n p. h.original v n (ground (arith, first_original-snoc v w.journal e, quiet v));
      same_workloads = h.same_workloads;
      faultless =
          λ p n. h.faultless p (ground (arith, any-snoc (is_fault_of (owner p)) w.journal e));
    };
  }

  -- An entry that records a scaling from the present count.
  scaled-IsJournaled :
      (w : World c.State) (v : String) (n m : ℕ)
      → scale_of w.cluster v ≡ some n
      → IsJournaled w
      → IsJournaled (journal_record (Entry.scale v n m) w).1
  scaled-IsJournaled w v n m now h = record {
    unscaled =
        λ u e. h.unscaled u (ground (arith, first_original-snoc u w.journal (Entry.scale v n m)));
    original = λ u r p. elim (Option-cases (first_original u w.journal)) [
      | inl fresh ↦
          sym (h.unscaled u fresh)
          ∙ ground (arith, first_original-snoc u w.journal (Entry.scale v n m), eq_iff v u, now)
      | inr (r', old) ↦
          h.original u r (ground (arith, first_original-snoc u w.journal (Entry.scale v n m)))
    ];
    same_workloads = h.same_workloads;
    faultless = λ p e.
        h.faultless p
          (ground (arith, any-snoc (is_fault_of (owner p)) w.journal (Entry.scale v n m)));
  }

  -- A patch of a workload whose scaling is journaled.
  pub patch-IsJournaled :
      (w : World c.State) (v : String) (m : ℕ)
      → first_original v w.journal ≢ none
      → IsJournaled w
      → IsJournaled (lift (c.patch_scale v m) w).1
  patch-IsJournaled w v m journaled h = record {
    unscaled = λ u e. k.patch_other v m w.cluster u (λ p. journaled (rw p e)) ∙ h.unscaled u e;
    original = h.original;
    same_workloads = λ u. elim (Bool-cases (v == u)) [
      | inl same ↦ rw (← (eq_iff v u).0 same) (k.patch_exists v m w.cluster ∙ h.same_workloads v)
      | inr other ↦
          ap is_none (k.patch_other v m w.cluster u (λ p. ground (arith, eq_iff v u)))
          ∙ h.same_workloads u
    ];
    faultless = λ p e. k.patch_rules v m w.cluster p (h.faultless p e);
  }

  pub ready_pods-IsJournaled : (v : String) → Keeps IsJournaled (ready_pods c v)
  unfolding ready_pods
  ready_pods-IsJournaled v =
      bind-Keeps (lift (c.list_pods v)) _ (lift-IsJournaled (c.list_pods v) (k.list_quiet v))
        (λ pods. pure-Keeps _)

  running_pods-IsJournaled : (v : String) → Keeps IsJournaled (running_pods c v)
  unfolding running_pods
  running_pods-IsJournaled v =
      bind-Keeps (lift (c.list_pods v)) _ (lift-IsJournaled (c.list_pods v) (k.list_quiet v))
        (λ pods. pure-Keeps _)

  put-IsJournaled :
      (w : World c.State) (pod : String) (rule : Rule)
      → any (is_fault_of (owner pod)) w.journal ≡ true
      → IsJournaled w
      → IsJournaled (lift (c.put_fault pod rule) w).1
  put-IsJournaled w pod rule journaled h = record {
    unscaled = λ v e. k.put_scale pod rule w.cluster v ∙ h.unscaled v e;
    original = h.original;
    same_workloads = λ v. ap is_none (k.put_scale pod rule w.cluster v) ∙ h.same_workloads v;
    faultless = λ p e.
        k.put_other pod rule w.cluster p (λ same. cc (journaled, ap owner same)) (h.faultless p e);
  }

  -- A fault rule is sent to a pod of its service only after its entry is written.
  inject-IsJournaled :
      (spec : FaultSpec) (run pod : String)
      → owner pod ≡ service_name spec.service
      → Keeps IsJournaled (inject c spec run pod)
  unfolding inject
  inject-IsJournaled spec run pod own = record {
    at = λ w h.
        let e = Entry.fault (service_name spec.service) pod spec.operation (mode_name spec.mode) in
        let written = (journal_record e w).1 in
        let h' = (record-IsJournaled e (λ v. refl)).at w h in
        let listed : any (is_fault_of (owner pod)) written.journal ≡ true =
          any-snoc (is_fault_of (owner pod)) w.journal e
          ∙ ground (arith, own, eq_iff (service_name spec.service) (owner pod)) in
        let (status, sent) = lift (c.put_fault pod (to_rule spec run)) written in
        (and_then-Keeps {P = IsJournaled} status _ (λ code.
            if-Keeps (code != 201) _ _ (raise-Keeps (runtime_error "fault rule rejected"))
              (pure-Keeps tt))).at
          sent (put-IsJournaled written pod (to_rule spec run) listed h');
  }

  current_replicas-IsJournaled : (v : String) → Keeps IsJournaled (current_replicas c v)
  unfolding current_replicas
  current_replicas-IsJournaled v =
      bind-Keeps (lift (c.read_replicas v)) _
        (lift-IsJournaled (c.read_replicas v) (k.read_quiet v)) (λ r. pure-Keeps _)

  current_replicas_lem :
      (v : String) (w : World c.State) (n : ℕ)
      → (current_replicas c v w).0 ≡ ok n
      → scale_of (current_replicas c v w).1.cluster v ≡ some n
  unfolding current_replicas
  current_replicas_lem v w n h =
      let (r, read, answer, state) = bind-eq-ok (lift (c.read_replicas v)) _ w h in
      ap (λ (u : World c.State). scale_of u.cluster v) state
      ∙ ((k.read_quiet v w.cluster).0 v ∙ (k.read_replicas_lem v w.cluster r read ∙ cc answer))

  -- The part of `scale` behind the reading.
  scale_from :
      (v : String) (m : ℕ) (r : Result ℕ) (w : World c.State)
      → ((n : ℕ) → r ≡ ok n → scale_of w.cluster v ≡ some n)
      → IsJournaled w
      → IsJournaled
          (and_then r
            (λ original.
              journal_record (Entry.scale v original m)
              >> (lift (c.patch_scale v m) >> pure original))
            w).1
  scale_from v m (raised e) w now h = h
  scale_from v m (ok n) w now h =
      let written = (journal_record (Entry.scale v n m) w).1 in
      let journaled : first_original v written.journal ≢ none =
        λ e. ground (arith, first_original-snoc v w.journal (Entry.scale v n m), eq_iff v v) in
      let (answer, patched) = lift (c.patch_scale v m) written in
      (and_then-Keeps {P = IsJournaled} answer _ (λ _. pure-Keeps n)).at patched
        (patch-IsJournaled written v m journaled (scaled-IsJournaled w v n m (now n refl) h))

  -- Scaling keeps the invariant, whichever of its calls fails.
  pub scale-IsJournaled : (v : String) (m : ℕ) → Keeps IsJournaled (scale c v m)
  unfolding scale
  scale-IsJournaled v m = record {
    at = λ w h.
        scale_from v m (current_replicas c v w).0 (current_replicas c v w).1
          (current_replicas_lem v w) ((current_replicas-IsJournaled v).at w h);
  }

  -- A scaling that succeeds is journaled.
  pub scale_journaled :
      (v : String) (m : ℕ) (w : World c.State) (n : ℕ)
      → (scale c v m w).0 ≡ ok n
      → first_original v (scale c v m w).1.journal ≢ none
  unfolding scale
  scale_journaled v m w n h gone =
      let (original, read, rest, state) = bind-eq-ok (current_replicas c v) _ w h in
      let read_state = (current_replicas c v w).1 in
      let written = (journal_record (Entry.scale v original m) read_state).1 in
      let (done, patched, answer, after) =
        bind-eq-ok (lift (c.patch_scale v m)) (λ _. pure original) written rest in
      ground (
        arith,
        first_original-snoc v read_state.journal (Entry.scale v original m),
        eq_iff v v,
        ap (λ (u : World c.State). first_original v u.journal) (state ∙ after),
        gone,
      )

  -- Restoring a count whose scaling is journaled.
  pub restore_replicas-IsJournaled :
      (w : World c.State) (v : String) (m : ℕ)
      → first_original v w.journal ≢ none
      → IsJournaled w
      → IsJournaled (restore_replicas c v m w).1
  unfolding restore_replicas
  restore_replicas-IsJournaled w v m journaled h = patch-IsJournaled w v m journaled h

  ready_listed :
      (pods : List Pod) (p : String)
      → contains (sorted (map (λ q. q.name) (Kube.ready_pods pods))) p ≡ true
      → contains (map (λ q. q.name) pods) p ≡ true
  unfolding Kube.ready_pods
  ready_listed pods p h =
      contains-map-filter (λ q. q.name) _ pods p
        (contains-map-filter (λ q. q.name) Kube.is_pod_ready _ p (sym (contains-sorted p _) ∙ h))

  All-owner :
      (v : String) (pods : List Pod) (s : c.State) (names : List String)
      → (c.list_pods v s).0 ≡ ok pods
      → ((p : String) → contains names p ≡ true → contains (map (λ q. q.name) pods) p ≡ true)
      → All (λ p. owner p ≡ v) names
  All-owner v pods s [] listed sub = tt
  All-owner v pods s (p ∷ names) listed sub = (
    k.listed_owner v s pods p listed (sub p (ground (arith, eq_iff p p))),
    All-owner v pods s names listed (λ q h. sub q (ground arith)),
  )

  ready_pods-owner :
      (v : String) (w : World c.State) (names : List String)
      → (ready_pods c v w).0 ≡ ok names
      → All (λ p. owner p ≡ v) names
  unfolding ready_pods
  ready_pods-owner v w names h =
      let (pods, listed, answer, state) = bind-eq-ok (lift (c.list_pods v)) _ w h in
      All-owner v pods w.cluster names listed (λ p m. ready_listed pods p (ground arith))

  targets-owner :
      (r : Replicas) (v : String) (names : List String)
      → All (λ p. owner p ≡ v) names
      → All (λ p. owner p ≡ v) (targets c r names)
  targets-owner all_replicas v names h = h
  targets-owner one_replica v [] h = tt
  targets-owner one_replica v (p ∷ names) h = (h.0, tt)

  inject_into-IsJournaled :
      (spec : FaultSpec) (run : String) (pods : List String)
      → All (λ p. owner p ≡ service_name spec.service) pods
      → Keeps IsJournaled (inject_into c spec run pods)
  inject_into-IsJournaled spec run [] own =
      raise-Keeps (runtime_error "no ready pod to inject a fault into")
  inject_into-IsJournaled spec run (p ∷ pods) own =
      bind-Keeps (for_each (targets c spec.replicas (p ∷ pods)) (inject c spec run)) _
        (for_each-Keeps_with (targets c spec.replicas (p ∷ pods)) (inject c spec run)
          (targets-owner spec.replicas _ (p ∷ pods) own) (inject-IsJournaled spec run))
        (λ _. pure-Keeps _)

  -- Injecting a fault keeps the invariant, also where a pod refuses its rule.
  pub apply_fault-IsJournaled :
      (spec : FaultSpec) (run : String) → Keeps IsJournaled (apply_fault c spec run)
  unfolding apply_fault
  apply_fault-IsJournaled spec run =
      bind-Keeps_with (ready_pods c (service_name spec.service)) (inject_into c spec run)
        (ready_pods-IsJournaled (service_name spec.service))
        (λ w names h. ready_pods-owner (service_name spec.service) w names h)
        (inject_into-IsJournaled spec run)

  delete_first-IsJournaled :
      (v : String) (pods : List String) → Keeps IsJournaled (delete_first c v pods)
  delete_first-IsJournaled v [] = raise-Keeps (runtime_error "no ready pod to delete")
  delete_first-IsJournaled v (p ∷ pods) =
      bind-Keeps (lift (c.read_pod_uid p)) _ (lift-IsJournaled (c.read_pod_uid p) (k.uid_quiet p))
        λ uid.
          bind-Keeps (journal_record (Entry.delete_pod v p uid)) _
            (record-IsJournaled (Entry.delete_pod v p uid) (λ u. refl))
            λ _.
              bind-Keeps (lift (c.delete_pod p)) _
                (lift-IsJournaled (c.delete_pod p) (k.delete_quiet p)) (λ _. pure-Keeps p)

  pub delete_pod-IsJournaled : (v : String) → Keeps IsJournaled (delete_pod c v)
  unfolding delete_pod
  delete_pod-IsJournaled v =
      bind-Keeps (ready_pods c v) (delete_first c v) (ready_pods-IsJournaled v)
        (delete_first-IsJournaled v)

  pub rollout_restart-IsJournaled : (v : String) → Keeps IsJournaled (rollout_restart c v)
  unfolding rollout_restart
  rollout_restart-IsJournaled v =
      bind-Keeps (journal_record (Entry.rollout_restart v)) _
        (record-IsJournaled (Entry.rollout_restart v) (λ u. refl))
        (λ _. lift-IsJournaled (c.patch_restarted v) (k.restart_quiet v))

  clear_pods-IsJournaled : (n : ℕ) (pods : List String) → Keeps IsJournaled (clear_pods c n pods)
  unfolding clear_pods
  clear_pods-IsJournaled n [] = pure-Keeps n
  clear_pods-IsJournaled n (p ∷ pods) =
      bind-Keeps (lift (c.delete_faults p)) _
        (lift-IsJournaled (c.delete_faults p) (k.clear_quiet p))
        (λ m. clear_pods-IsJournaled (n + m) pods)

  pub clear_faults-IsJournaled : (v : String) → Keeps IsJournaled (clear_faults c v)
  unfolding clear_faults
  clear_faults-IsJournaled v =
      bind-Keeps (running_pods c v) (clear_pods c 0) (running_pods-IsJournaled v)
        (clear_pods-IsJournaled 0)

  pub wait_rollout_complete-IsJournaled :
      (v : String) → Keeps IsJournaled (wait_rollout_complete c v)
  unfolding wait_rollout_complete
  wait_rollout_complete-IsJournaled v = lift-IsJournaled (c.await_rollout v) (k.await_quiet v)

  pub reset_circuit_breakers-IsJournaled : Keeps IsJournaled (reset_circuit_breakers c)
  unfolding reset_circuit_breakers
  reset_circuit_breakers-IsJournaled =
      bind-Keeps (running_pods c "order-service") _ (running_pods-IsJournaled "order-service")
        λ pods. for_each-Keeps pods _ λ p. lift-IsJournaled (c.post_reset p) (k.reset_quiet p)
