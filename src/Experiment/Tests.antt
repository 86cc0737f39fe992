-- ===== src/Experiment/Tests.antt =====
-- A run whose traffic fails.
use kubernetes_distributed_t.Schema.{Scenario, workload}
use kubernetes_distributed_t.Records.{new_record}
use kubernetes_distributed_t.Experiment.Ending.{Ended, guarded-Ended}
use kubernetes_distributed_t.Experiment.Running.{guarded}
use kubernetes_distributed_t.Experiment.Restoring.{restore_interrupted_runs}
use kubernetes_distributed_t.Experiment.{Phases, Run, RunRecord}
use kubernetes_distributed_t.Common.{
  [], nat_eq, none, option_eq, refl, some, string_eq, true, ℕ, ◌+◌, ◌≡◌, ◌∷◌, if_holds, ◌==◌, subst,
  eq_iff, List, String, arith, contains,
}
use kubernetes_distributed_t.Common.Exec.{http_error, ok, raised}
use kubernetes_distributed_t.Records.Store.{WellKept}
use kubernetes_distributed_t.Experiment.Interrupted.{
  IsUndoing, Recovered, restore_interrupted_runs-Recovered,
}

-- The state counts the restores.
abbrev broken_traffic : Phases ℕ
broken_traffic = record {
  acquire_lock = λ s. (ok tt, s);
  release_lock = λ force s. (ok true, s);
  deployment_available = λ namespace name s. (ok true, s);
  statefulset_ready = λ namespace name s. (ok true, s);
  gateway_status = λ s. (ok 401, s);
  token = λ client s. (ok tt, s);
  leftover_faults = λ s. (ok [], s);
  reset_circuit_breakers = λ s. (ok tt, s);
  snapshot_metrics = λ telemetry r s. (ok r, s);
  apply_fault = λ f run_id s. (ok [], s);
  send_traffic = λ scenario run_id s. (raised http_error, s);
  restore = λ run_id s. (ok tt, s + 1);
  clear_faults = λ service s. (ok 0, s);
  get_order = λ order_id s. (ok none, s);
  payment_authorizations = λ ids s. (ok [], s);
  verify = λ telemetry r s. (ok r, s);
}

abbrev plain_scenario : Scenario
plain_scenario = record {
  id = "s1";
  title = "";
  description = "";
  category = workload;
  faults = [];
  kubernetes = [];
  workload_steps = [];
  application = record {
    statuses = [];
    states = [];
    compensation = none;
    authorizations_per_order = none;
  };
  telemetry = none;
}

abbrev at_start : Run ℕ
at_start = record { current = new_record "run-1" "s1"; saved = []; outside = 0 }

abbrev at_end : Run ℕ
at_end = (guarded broken_traffic plain_scenario true at_start).1

restored_once : at_end.outside ≡ 1
unfolding guarded
restored_once = refl

failure_noted : at_end.current.error ≡ some http_error
unfolding guarded
failure_noted = refl

guarded-Ended_example :
    Ended broken_traffic plain_scenario true (guarded broken_traffic plain_scenario true at_start)
guarded-Ended_example = guarded-Ended broken_traffic plain_scenario true at_start

-- A run that was interrupted, on disk.
abbrev left_run : RunRecord
left_run = new_record "run-0" "s1"

abbrev left_behind : Run (List String)
left_behind = record {
  current = new_record "run-1" "s1";
  saved = ("run-0", left_run) ∷ [];
  outside = [];
}

left_behind-WellKept : WellKept left_behind.saved
left_behind-WellKept = record {
  own_id = λ name r found.
      if_holds (λ o. o ≡ some r → r.run_id ≡ name) ("run-0" == name) (some left_run) none
        (λ same e.
          let here : left_run ≡ r = cc in
          subst (λ (x : RunRecord). x.run_id ≡ name) here ((eq_iff "run-0" name).0 same))
        (λ other e. absurd (cc)) found;
}

-- A world that keeps the ids of the runs whose changes are undone.
abbrev undoing : Phases (List String)
undoing = record {
  acquire_lock = λ s. (ok tt, s);
  release_lock = λ force s. (ok true, s);
  deployment_available = λ namespace name s. (ok true, s);
  statefulset_ready = λ namespace name s. (ok true, s);
  gateway_status = λ s. (ok 401, s);
  token = λ client s. (ok tt, s);
  leftover_faults = λ s. (ok [], s);
  reset_circuit_breakers = λ s. (ok tt, s);
  snapshot_metrics = λ telemetry r s. (ok r, s);
  apply_fault = λ f run_id s. (ok [], s);
  send_traffic = λ scenario run_id s. (raised http_error, s);
  restore = λ run_id s. (ok tt, run_id ∷ s);
  clear_faults = λ service s. (ok 0, s);
  get_order = λ order_id s. (ok none, s);
  payment_authorizations = λ ids s. (ok [], s);
  verify = λ telemetry r s. (ok r, s);
}

restoring_returns : (restore_interrupted_runs undoing left_behind).0 ≡ ok tt
unfolding restore_interrupted_runs
restoring_returns = refl

abbrev Listed : String → List String → Type 0
Listed id s = contains s id ≡ true

undoing-IsUndoing : IsUndoing undoing Listed
undoing-IsUndoing = record {
  undone = λ id s h. ground (arith, eq_iff id id);
  kept = λ id other s h. ground (arith, h);
}

restore_interrupted_runs-Recovered_example :
    Recovered Listed left_behind (restore_interrupted_runs undoing left_behind).1
restore_interrupted_runs-Recovered_example =
    restore_interrupted_runs-Recovered undoing Listed undoing-IsUndoing left_behind
      left_behind-WellKept restoring_returns
