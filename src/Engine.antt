-- ===== src/Engine.antt =====
-- Running a scenario (automation/src/txplatform/scenarios/engine.py) on the run records of
-- records.py.
pub mod Restore
pub mod Changes
mod Tests
use mathlib.Core.Option.{get_or}
use kubernetes_distributed_t.Common.{
  Bool, List, Option, String, [], false, if◌then◌else◌, nat_eq, none, option_eq, some, string_eq,
  suc, true, zero, ℕ, ◌!=◌,
}
use kubernetes_distributed_t.Common.Exec.{for_each, pure, ◌>>=◌, ◌>>◌}
use kubernetes_distributed_t.Journal.{
  StepKind, RestoreStep, clear_faults, wait_available, restore_plan,
}
use kubernetes_distributed_t.Control.{Cluster, World, Op}
use kubernetes_distributed_t.Control
use kubernetes_distributed_t.Schema.{
  Action, KubernetesAction, Scenario, delete_pod, rollout_restart,
}

-- What `_kubernetes_action` appends to the record; the timestamps are left out.
pub record KubernetesEvent : Type 0 where
  pub action : Action
  pub workload : String
  pub pod : Option String
  pub pods_before : List String
  pub original_replicas : Option ℕ
  pub restored : Bool

abbrev pub plain_event : KubernetesAction → KubernetesEvent
plain_event a = record {
  action = a.action;
  workload = a.workload;
  pod = none;
  pods_before = [];
  original_replicas = none;
  restored = false;
}

-- Truthiness of an optional number.
abbrev pub is_set : Option ℕ → Bool
is_set none = false
is_set (some n) = n != 0

-- The world of a run that has not begun.
abbrev pub fresh : {S : Type 0} → S → World S
fresh s = record { cluster = s; journal = [] }

module _ (c : Cluster) where
  -- One step of the loop of `restore`.
  unfoldable pub restore_step : RestoreStep → Op c (Unit {0})
  restore_step step = elim step.kind [
    | clear_faults ↦ Control.clear_faults c step.target >> pure tt
    | StepKind.scale ↦ Control.restore_replicas c step.target (get_or step.replicas 0)
    | wait_available ↦ Control.wait_rollout_complete c step.target
  ]

  -- `restore` on the journal of the run.
  unfoldable pub restore : Op c (Unit {0})
  unfolding restore_step for_each
  restore w = for_each (restore_plan w.journal) restore_step w

  -- The scaling branch of `_kubernetes_action`, behind the call of `control.scale`.
  unfoldable pub after_scale : KubernetesAction → ℕ → Op c KubernetesEvent
  after_scale a original =
      let event = plain_event a in
      if is_set a.restore_after_seconds
      then (Control.restore_replicas c a.workload original
          >> pure (record event { original_replicas = some original; restored = true }))
      else pure (record event { original_replicas = some original })

  -- The branches of `_kubernetes_action`. Its sleeps only pass time.
  unfoldable pub perform : KubernetesAction → Action → Op c KubernetesEvent
  unfolding after_scale
  perform a delete_pod = do
    pod ← Control.delete_pod c a.workload
    let event = plain_event a
    pure (record event { pod = some pod })
  perform a rollout_restart = do
    pods ← Control.ready_pods c a.workload
    Control.rollout_restart c a.workload
    let event = plain_event a
    pure (record event { pods_before = pods })
  perform a Action.scale = Control.scale c a.workload (get_or a.replicas 0) >>= after_scale a

  unfoldable pub kubernetes_action : KubernetesAction → Op c KubernetesEvent
  unfolding perform
  kubernetes_action a = perform a a.action

  -- The changes that `run` makes before it restores: circuit breakers, faults, then the Kubernetes
  -- actions. The actions are taken one after the other.
  unfoldable pub make_changes : Scenario → String → Op c (Unit {0})
  unfolding kubernetes_action for_each
  make_changes scenario run_id = do
    Control.reset_circuit_breakers c
    for_each scenario.faults (λ fault. Control.apply_fault c fault run_id >> pure tt)
    for_each scenario.kubernetes (λ action. kubernetes_action action >> pure tt)

  -- `restore`, called so often, whatever it answers: by `run` and by each later `reset`.
  unfoldable pub attempts : ℕ → World c.State → World c.State
  attempts zero w = w
  attempts (suc n) w = attempts n (restore w).1

  -- What a run that begins in `s` leaves, whether its changes went through or stopped.
  unfoldable pub changed : Scenario → String → c.State → World c.State
  changed scenario run_id s = (make_changes scenario run_id (fresh s)).1
