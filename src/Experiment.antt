-- ===== src/Experiment.antt =====
-- A run of a scenario from start to finish (automation/src/txplatform/scenarios/engine.py): the
-- pre-flight, the phases of a run with its error paths, the restore of interrupted runs and the
-- reset. What the phases do to the cluster is the interface Phases, which Engine, Control and
-- Contracts model; the lock is two of its calls. Dates and messages to the console are left out.
pub mod Checking
pub mod Restoring
pub mod Running
pub mod Ending
pub mod Interrupted
mod Tests
use kubernetes_distributed_t.Records.{
  RunRecord, error, interrupted, passed, failed, is_running, unrestored_runs, add_check, has_passed,
}
use kubernetes_distributed_t.Workload.{RequestRecord}
use kubernetes_distributed_t.Engine.{KubernetesEvent}
use kubernetes_distributed_t.Expectations.{
  Order, CheckResult, evaluate_states, evaluate_statuses, evaluate_compensation,
  evaluate_authorizations,
}
use kubernetes_distributed_t.Schema.{
  Scenario, ApplicationExpectations, FaultSpec, TelemetryExpectations, downstream_services,
  service_name,
}
use kubernetes_distributed_t.Kube.{ns_app, ns_gateway, ns_observability}
use kubernetes_distributed_t.Common.{
  Bool, List, Option, String, [], append_new, false, filter, if◌then◌else◌, is_empty, is_none, map,
  nat_eq, none, not, option_eq, some, string_eq, true, ℕ, ◌!=◌, ◌++◌, ◌==◌, ◌∷◌,
}
use kubernetes_distributed_t.Common.Dict.{Dict, insert, keys}
use kubernetes_distributed_t.Common.Exec.{
  Error, Exec, Result, for_each, gets, keyboard_interrupt, ok, pure, raised, runtime_error, when,
  ◌>>=◌, ◌>>◌,
}
use kubernetes_distributed_t.Common.Sort.{sort_by, str_leb}
use kubernetes_distributed_t.Common.Texts.{ends_with}

-- What the traffic gave: its requests, its times and the events of the Kubernetes actions.
pub record Traffic : Type 0 where
  pub requests : List RequestRecord
  pub started_at : ℕ
  pub finished_at : ℕ
  pub events : List KubernetesEvent

pub record Phases (S : Type 0) : Type 0 where
  pub acquire_lock : Exec S (Unit {0})
  pub release_lock : (force : Bool) → Exec S Bool
  pub deployment_available : (namespace name : String) → Exec S Bool
  pub statefulset_ready : (namespace name : String) → Exec S Bool
  pub gateway_status : Exec S ℕ
  pub token : (client_id : String) → Exec S (Unit {0})
  pub leftover_faults : Exec S (List (String × ℕ))
  pub reset_circuit_breakers : Exec S (Unit {0})
  pub snapshot_metrics : Option TelemetryExpectations → RunRecord → Exec S RunRecord
  pub apply_fault : FaultSpec → (run_id : String) → Exec S (List String)
  pub send_traffic : Scenario → (run_id : String) → Exec S Traffic
  pub restore : (run_id : String) → Exec S (Unit {0})
  pub clear_faults : (service : String) → Exec S ℕ
  pub get_order : (order_id : String) → Exec S (Option Order)
  pub payment_authorizations : List String → Exec S (Dict String ℕ)
  pub verify : Option TelemetryExpectations → RunRecord → Exec S RunRecord

-- The record of the run, the records on disk, and the rest of the world.
pub record Run (S : Type 0) : Type 0 where
  pub current : RunRecord
  pub saved : Dict String RunRecord
  pub outside : S

abbrev pub Stage : (S A : Type 0) → Type 0
Stage S A = Exec (Run S) A

abbrev pub left_by : {S A : Type 0} → Run S → Result A × S → Result A × Run S
left_by w (r, s) = (r, record w { outside = s })

-- A call that leaves the records alone.
abbrev pub call : {S A : Type 0} → Exec S A → Stage S A
call m w = left_by w (m w.outside)

-- An assignment to the record.
abbrev pub set : {S : Type 0} → (RunRecord → RunRecord) → Stage S (Unit {0})
set f w = (ok tt, record w { current = f w.current })

abbrev pub save_record : {S : Type 0} → RunRecord → Run S → Run S
save_record r w = record w { saved = insert r.run_id r w.saved }

-- RunRecord.save
abbrev pub save : {S : Type 0} → Stage S (Unit {0})
save w = (ok tt, save_record w.current w)
