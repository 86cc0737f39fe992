-- ===== src/Engine/Changes.antt =====
-- Whatever a run changes, and wherever it stops, a later restore puts back.
use mathlib.Core.Option.{get_or}
use kubernetes_distributed_t.Common.{
  All, All-append, Bool-cases, List, String, [], arith, eq_iff, inl, inr, map, nat_eq, none,
  option_eq, refl, string_eq, suc, zero, ℕ, ◌∙◌, ◌∷◌, ◌≡◌, ◌≢◌,
}
use kubernetes_distributed_t.Common.Exec.{
  Keeps, Result, and_then, and_then-Keeps, bind-Keeps, for_each, for_each-Keeps,
  for_each-Keeps_with, ok, pure-Keeps, raised,
}
use kubernetes_distributed_t.Schema.{
  Action, KubernetesAction, Scenario, delete_pod, rollout_restart,
}
use kubernetes_distributed_t.Journal.{
  Entry, clear_step, scale_step, wait_step, restore_plan, collect, no_changes,
}
use kubernetes_distributed_t.Journal.Plan.{first_original, collect-original}
use kubernetes_distributed_t.Common.Dict.{Dict, lookup}
use kubernetes_distributed_t.Control.{Cluster, World, Op}
use kubernetes_distributed_t.Control
use kubernetes_distributed_t.Control.Laws.{IsKubernetes}
use kubernetes_distributed_t.Control.Recovery.{
  ready_pods-IsJournaled, IsJournaled, apply_fault-IsJournaled, clear_faults-IsJournaled,
  delete_pod-IsJournaled, patch-IsJournaled, reset_circuit_breakers-IsJournaled,
  restore_replicas-IsJournaled, rollout_restart-IsJournaled, scale-IsJournaled, scale_journaled,
  wait_rollout_complete-IsJournaled,
}
use kubernetes_distributed_t.Control.Faults.{
  IsCalm-refl, clear_faults-IsCalm, wait_rollout_complete-IsCalm,
}
use kubernetes_distributed_t.Engine.{
  after_scale, attempts, changed, fresh, is_set, kubernetes_action, make_changes, perform, restore,
  restore_step,
}
use kubernetes_distributed_t.Engine.Restore.{restore_undoes}

module _ (c : Cluster) (k : IsKubernetes c) (start : c.State) where
  open k use {scale_of, rules_of}

  abbrev Kept : {A : Type 0} → Op c A → Type 0
  Kept m = Keeps (IsJournaled c k start) m

  after_scale-IsJournaled :
      (a : KubernetesAction) (n : ℕ) (w : World c.State)
      → first_original a.workload w.journal ≢ none
      → IsJournaled c k start w
      → IsJournaled c k start (after_scale c a n w).1
  unfolding after_scale
  after_scale-IsJournaled a n w journaled h = elim (Bool-cases (is_set a.restore_after_seconds)) [
    | inl later ↦ rw later (
        (and_then-Keeps {P = IsJournaled c k start} (Control.restore_replicas c a.workload n w).0 _
            (λ _. pure-Keeps _)).at
          (Control.restore_replicas c a.workload n w).1
          (restore_replicas-IsJournaled c k start w a.workload n journaled h))
    | inr never ↦ rw never h
  ]

  after_scaling :
      (a : KubernetesAction) (r : Result ℕ) (w : World c.State)
      → ((n : ℕ) → r ≡ ok n → first_original a.workload w.journal ≢ none)
      → IsJournaled c k start w
      → IsJournaled c k start (and_then r (after_scale c a) w).1
  after_scaling a (ok n) w journaled h = after_scale-IsJournaled a n w (journaled n refl) h
  after_scaling a (raised e) w journaled h = h

  perform-IsJournaled : (a : KubernetesAction) (x : Action) → Kept (perform c a x)
  unfolding perform
  perform-IsJournaled a delete_pod =
      bind-Keeps (Control.delete_pod c a.workload) _ (delete_pod-IsJournaled c k start a.workload)
        (λ p. pure-Keeps _)
  perform-IsJournaled a rollout_restart =
      bind-Keeps (Control.ready_pods c a.workload) _ (ready_pods-IsJournaled c k start a.workload)
        λ pods.
          bind-Keeps (Control.rollout_restart c a.workload) _
            (rollout_restart-IsJournaled c k start a.workload) (λ _. pure-Keeps _)
  perform-IsJournaled a Action.scale = record {
    at = λ w h.
        let m = get_or a.replicas 0 in
        after_scaling a (Control.scale c a.workload m w).0 (Control.scale c a.workload m w).1
          (λ n. scale_journaled c k start a.workload m w n)
          ((scale-IsJournaled c k start a.workload m).at w h);
  }

  -- The changes of a run keep the invariant, wherever they stop.
  make_changes-IsJournaled : (s : Scenario) (run : String) → Kept (make_changes c s run)
  unfolding make_changes kubernetes_action
  make_changes-IsJournaled s run =
      bind-Keeps (Control.reset_circuit_breakers c) _ (reset_circuit_breakers-IsJournaled c k start)
        λ _.
          bind-Keeps (for_each s.faults _) _
            (for_each-Keeps s.faults _ λ f.
              bind-Keeps (Control.apply_fault c f run) _ (apply_fault-IsJournaled c k start f run)
                (λ _. pure-Keeps tt))
            λ _. for_each-Keeps s.kubernetes _ λ a.
              bind-Keeps (kubernetes_action c a) _ (perform-IsJournaled a a.action)
                (λ _. pure-Keeps tt)

  -- The invariant, with the journal as it stands.
  abbrev Settled : List Entry → World c.State → Type 0
  Settled es w = IsJournaled c k start w × (w.journal ≡ es)

  clear_step-Settled :
      (es : List Entry) (v : String) → Keeps (Settled es) (restore_step c (clear_step v))
  unfolding restore_step
  clear_step-Settled es v =
      bind-Keeps (Control.clear_faults c v) _
        (record {
          at = λ w h. (
            (clear_faults-IsJournaled c k start v).at w h.0,
            ((clear_faults-IsCalm c k w v).at w (IsCalm-refl c k w)).same_journal ∙ h.1,
          );
        })
        (λ n. pure-Keeps tt)

  scale_step-Settled :
      (es : List Entry) (e : String × ℕ)
      → first_original e.0 es ≢ none
      → Keeps (Settled es) (restore_step c (scale_step e))
  unfolding restore_step Control.restore_replicas
  scale_step-Settled es (v, n) there = record {
    at = λ w h. (patch-IsJournaled c k start w v n (λ gone. there (rw (h.1) at gone)) h.0, h.1);
  }

  wait_step-Settled :
      (es : List Entry) (v : String) → Keeps (Settled es) (restore_step c (wait_step v))
  unfolding restore_step
  wait_step-Settled es v = record {
    at = λ w h. (
      (wait_rollout_complete-IsJournaled c k start v).at w h.0,
      ((wait_rollout_complete-IsCalm c k w v).at w (IsCalm-refl c k w)).same_journal ∙ h.1,
    );
  }

  clear_steps-Settled :
      (es : List Entry) (l : List String)
      → All (λ step. Keeps (Settled es) (restore_step c step)) (map clear_step l)
  clear_steps-Settled es [] = tt
  clear_steps-Settled es (v ∷ l) = (clear_step-Settled es v, clear_steps-Settled es l)

  wait_steps-Settled :
      (es : List Entry) (l : List String)
      → All (λ step. Keeps (Settled es) (restore_step c step)) (map wait_step l)
  wait_steps-Settled es [] = tt
  wait_steps-Settled es (v ∷ l) = (wait_step-Settled es v, wait_steps-Settled es l)

  scale_steps-Settled :
      (es : List Entry) (d : Dict String ℕ)
      → ((v : String) → lookup v d ≢ none → first_original v es ≢ none)
      → All (λ step. Keeps (Settled es) (restore_step c step)) (map scale_step d)
  scale_steps-Settled es [] there = tt
  scale_steps-Settled es ((v, n) ∷ d) there = (
    scale_step-Settled es (v, n) (there v (λ gone. ground (arith, eq_iff v v))),
    scale_steps-Settled es d (λ u h. there u (λ gone. h (ground arith))),
  )

  -- A restore keeps the invariant, also one that fails in the middle.
  restore-IsJournaled : Kept (restore c)
  unfolding restore restore_plan
  restore-IsJournaled = record {
    at = λ w h.
        let found = collect no_changes w.journal in
        let steps =
          All-append (λ step. Keeps (Settled w.journal) (restore_step c step))
            (map clear_step found.fault_services) _
            (clear_steps-Settled w.journal found.fault_services)
            (All-append (λ step. Keeps (Settled w.journal) (restore_step c step))
              (map scale_step found.original_replicas) _
              (scale_steps-Settled w.journal found.original_replicas
                (λ v there gone. there (collect-original no_changes w.journal v ∙ gone)))
              (wait_steps-Settled w.journal found.touched)) in
        ((for_each-Keeps_with (restore_plan w.journal) (restore_step c) steps (λ step q. q)).at w
          (h, refl)).0;
  }

  attempts-IsJournaled :
      (n : ℕ) (w : World c.State) → IsJournaled c k start w → IsJournaled c k start (attempts c n w)
  unfolding attempts
  attempts-IsJournaled zero w h = h
  attempts-IsJournaled (suc n) w h =
      attempts-IsJournaled n (restore c w).1 (restore-IsJournaled.at w h)

-- A run that starts with an empty journal and no fault rules, makes its changes and stops anywhere
-- in them, is undone by the first restore that succeeds, after any number of failed ones: every
-- workload has its replica count back, and no pod has a fault rule.
pub run_is_undone :
    (c : Cluster) (k : IsKubernetes c) (scenario : Scenario) (run_id : String) (s : c.State)
    (failures : ℕ)
    → ((p : String) → k.rules_of s p ≡ [])
    → (restore c (attempts c failures (changed c scenario run_id s))).0 ≡ ok tt
    → ((v : String)
        → k.scale_of (restore c (attempts c failures (changed c scenario run_id s))).1.cluster v
          ≡ k.scale_of s v)
      × ((p : String)
          → k.rules_of (restore c (attempts c failures (changed c scenario run_id s))).1.cluster p
            ≡ [])
unfolding changed
run_is_undone c k scenario run_id s failures clean done =
    restore_undoes c k s (attempts c failures (changed c scenario run_id s))
      (attempts-IsJournaled c k s failures (changed c scenario run_id s)
        ((make_changes-IsJournaled c k s scenario run_id).at (fresh s) start))
      done
  where
    start : IsJournaled c k s (fresh s)
    start = record {
      unscaled = λ v e. refl;
      original = λ v n e. cc;
      same_workloads = λ v. refl;
      faultless = λ p e. clean p;
    }
