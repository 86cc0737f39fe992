-- ===== src/Experiment/Restoring.antt =====
-- The restore of interrupted runs, and `reset`.
use kubernetes_distributed_t.Experiment.{Phases, Stage, call, save_record}
use kubernetes_distributed_t.Records.{RunRecord, interrupted, is_running, unrestored_runs}
use kubernetes_distributed_t.Schema.{downstream_services}
use kubernetes_distributed_t.Common.{
  Bool, List, [], if◌then◌else◌, nat_eq, option_eq, string_eq, true, ◌∷◌,
}
use kubernetes_distributed_t.Common.Exec.{for_each, ok, pure, when, ◌>>=◌, ◌>>◌}

module _ {S : Type 0} (p : Phases S) where
  -- `restore(record)`: the changes of the record's journal are undone, then the record says so.
  unfoldable pub restore : RunRecord → Stage S RunRecord
  restore r = call (p.restore r.run_id) >> pure (record r { restored = true })

  -- `if record.status == "running": record.status = "interrupted"`
  abbrev pub no_longer_running : RunRecord → RunRecord
  no_longer_running r = if is_running r.status then record r { status = interrupted } else r

  -- The rest of the loop's body.
  abbrev pub save_interrupted : RunRecord → Stage S (Unit {0})
  save_interrupted r w = (ok tt, save_record (no_longer_running r) w)

  unfoldable pub restore_each : List RunRecord → Stage S (Unit {0})
  unfolding restore
  restore_each [] = pure tt
  restore_each (r ∷ rest) = do restore r >>= save_interrupted; restore_each rest

  unfoldable pub restore_interrupted_runs : Stage S (Unit {0})
  unfolding restore_each unrestored_runs
  restore_interrupted_runs w = restore_each (unrestored_runs w.saved) w

  -- `reset`; the lock is released before, where that is forced.
  unfoldable pub reset : (force : Bool) → Stage S (Unit {0})
  unfolding restore_interrupted_runs for_each
  reset force = do
    when force (call (p.release_lock true) >> pure tt)
    restore_interrupted_runs
    for_each downstream_services (λ service. call (p.clear_faults service) >> pure tt)
    call p.reset_circuit_breakers
