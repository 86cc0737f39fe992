-- ===== src/Experiment/Running.antt =====
-- The phases of a run, its error paths, and `run`.
use kubernetes_distributed_t.Experiment.Restoring.{restore_interrupted_runs}
use kubernetes_distributed_t.Experiment.Checking.{Issue, preflight}
use kubernetes_distributed_t.Experiment.{Phases, Run, Stage, call, save, save_record, set}
use kubernetes_distributed_t.Records.{
  RunRecord, error, interrupted, passed, failed, add_check, has_passed,
}
use kubernetes_distributed_t.Workload.{RequestRecord}
use kubernetes_distributed_t.Expectations.{
  Order, CheckResult, evaluate_states, evaluate_statuses, evaluate_compensation,
  evaluate_authorizations,
}
use kubernetes_distributed_t.Schema.{Scenario, ApplicationExpectations, FaultSpec, service_name}
use kubernetes_distributed_t.Common.{
  Bool, List, Option, String, [], append_new, false, filter, if◌then◌else◌, is_empty, is_none, map,
  nat_eq, none, not, option_eq, some, string_eq, true, ◌++◌, ◌==◌, ◌∷◌,
}
use kubernetes_distributed_t.Common.Dict.{insert, keys}
use kubernetes_distributed_t.Common.Exec.{
  Exec, Result, for_each, gets, keyboard_interrupt, ok, pure, raised, runtime_error, when, ◌>>=◌,
  ◌>>◌,
}
use kubernetes_distributed_t.Common.Sort.{sort_by, str_leb}
use kubernetes_distributed_t.Common.Texts.{ends_with}

-- The ids of orders in the requests, once each.
unfoldable pub order_ids : (seen : List String) → List RequestRecord → List String
order_ids seen [] = seen
order_ids seen (request ∷ rest) =
    order_ids (if request.order_id == "" then seen else append_new request.order_id seen) rest

abbrev pub add_result : Option CheckResult → RunRecord → RunRecord
add_result none r = r
add_result (some result) r = add_check result.name result.passed "application" r

abbrev pub orders_of : RunRecord → List Order
orders_of r = map (λ entry. entry.1) r.orders

-- The results of `_application_checks` before the authorizations.
abbrev pub add_results : ApplicationExpectations → RunRecord → RunRecord
add_results expected r =
    let orders = orders_of r in
    let failed_orders = filter (λ order. ends_with order.state "Failed") orders in
    add_result (evaluate_compensation expected failed_orders) (
      add_result (evaluate_states expected (map (λ order. order.state) orders)) (
        add_result (some (evaluate_statuses expected (map (λ request. request.status) r.requests)))
          r))

module _ {S : Type 0} (p : Phases S) where
  abbrev pub add_fault : FaultSpec → List String → RunRecord → RunRecord
  add_fault f pods r = record r {
    faults =
        r.faults
        ++ record {
          service = service_name f.service;
          operation = f.operation;
          mode = f.mode;
          pods = pods;
        }
          ∷ [];
  }

  abbrev pub inject : FaultSpec → Stage S (Unit {0})
  inject f = do
    r ← gets (λ w. w.current)
    pods ← call (p.apply_fault f r.run_id)
    set (add_fault f pods)

  -- `_traffic`
  unfoldable pub traffic : Scenario → Stage S (Unit {0})
  traffic scenario = do
    r ← gets (λ w. w.current)
    t ← call (p.send_traffic scenario r.run_id)
    set (λ r. record r {
      requests = t.requests;
      workload_started_at = t.started_at;
      workload_finished_at = t.finished_at;
      kubernetes_events = r.kubernetes_events ++ t.events;
    })

  -- `restore(record)`
  unfoldable pub restore_current : Stage S (Unit {0})
  restore_current = do
    r ← gets (λ w. w.current)
    call (p.restore r.run_id)
    set (λ r. record r { restored = true })

  abbrev pub keep_order : String → Option Order → RunRecord → RunRecord
  keep_order order_id none r = r
  keep_order order_id (some order) r = record r { orders = insert order_id order r.orders }

  -- `_read_back_orders`
  unfoldable pub read_back_orders : Stage S (Unit {0})
  unfolding for_each sort_by
  read_back_orders = do
    r ← gets (λ w. w.current)
    let ids = sort_by str_leb (order_ids [] r.requests)
    when (not (is_empty ids)) (call (p.token "order-reader"))
    for_each ids
        (λ order_id. call (p.get_order order_id) >>= λ found. set (keep_order order_id found))

  -- The checks are added once every result is there, so a failing query leaves none.
  abbrev pub authorization_result :
      ApplicationExpectations → RunRecord → Exec S (Option CheckResult)
  authorization_result expected r =
      if is_none expected.authorizations_per_order
      then pure none
      else (p.payment_authorizations (sort_by str_leb (keys r.orders)) >>= λ per_order.
          pure (evaluate_authorizations expected per_order))

  -- `_application_checks`
  unfoldable pub application_checks : Scenario → Stage S (Unit {0})
  unfolding sort_by evaluate_statuses evaluate_states evaluate_compensation evaluate_authorizations
      add_check
  application_checks scenario = do
    let expected = scenario.application
    r ← gets (λ w. w.current)
    result ← call (authorization_result expected r)
    set (λ r. add_result result (add_results expected r))

  abbrev pub update : (RunRecord → Exec S RunRecord) → Stage S (Unit {0})
  update f = do r ← gets (λ w. w.current); changed ← call (f r); set (λ old. changed)

  -- The verdict on the run.
  abbrev pub judge : RunRecord → RunRecord
  judge r = record r { status = if has_passed r then passed else failed }

  -- The phases of a run on a platform that is ready.
  unfoldable pub run_phases : Scenario → (verify_telemetry : Bool) → Stage S (Unit {0})
  unfolding for_each traffic restore_current read_back_orders application_checks has_passed
  run_phases scenario verify_telemetry = do
    call p.reset_circuit_breakers
    when verify_telemetry (update (p.snapshot_metrics scenario.telemetry))
    for_each scenario.faults inject
    traffic scenario
    restore_current
    read_back_orders
    application_checks scenario
    when verify_telemetry (update (p.verify scenario.telemetry))
    set judge

  -- A run on a platform with problems changes nothing, so there is nothing to restore.
  abbrev pub refused : RunRecord → RunRecord
  refused r = record r {
    status = error;
    error = some (runtime_error "pre-flight failed");
    restored = true;
  }

  abbrev pub if_ready : List Issue → Stage S (Unit {0}) → Stage S (Unit {0})
  if_ready [] phases = phases
  if_ready (problem ∷ problems) phases = set refused

  -- The body of `try`.
  unfoldable pub attempt : Scenario → (verify_telemetry : Bool) → Stage S (Unit {0})
  unfolding preflight run_phases
  attempt scenario verify_telemetry = do
    problems ← call (preflight p)
    if_ready problems (run_phases scenario verify_telemetry)

  -- The `except` clauses: Ctrl+C is noted and raised again, any other exception is recorded.
  abbrev pub excepted : Result (Unit {0}) × Run S → Result (Unit {0}) × Run S
  excepted (ok _, w) = (ok tt, w)
  excepted (raised keyboard_interrupt, w) =
      (raised keyboard_interrupt, record w { current = record w.current { status = interrupted } })
  excepted (raised e, w) =
      (ok tt, record w { current = record w.current { status = error; error = some e } })

  -- What `finally` does after the outcome of the clauses: an exception of the restore replaces it,
  -- and then the record is not saved.
  abbrev pub after_restore :
      Result (Unit {0}) → Result (Unit {0}) × Run S → Result (Unit {0}) × Run S
  after_restore outcome (ok _, w) = (outcome, save_record w.current w)
  after_restore outcome (raised e, w) = (raised e, w)

  unfoldable pub finally_restore : Result (Unit {0}) × Run S → Result (Unit {0}) × Run S
  unfolding restore_current
  finally_restore (outcome, w) =
      let restoring = restore_current w in
      after_restore outcome (if w.current.restored then (ok tt, w) else restoring)

  unfoldable pub guarded : Scenario → (verify_telemetry : Bool) → Stage S (Unit {0})
  unfolding attempt finally_restore
  guarded scenario verify_telemetry w =
      finally_restore (excepted (attempt scenario verify_telemetry w))

  -- `runlock.held`, without the thread that renews the lease
  abbrev pub unlocked : Result (Unit {0}) → Result Bool × Run S → Result (Unit {0}) × Run S
  unlocked outcome (ok _, w) = (outcome, w)
  unlocked outcome (raised e, w) = (raised e, w)

  abbrev pub held : Stage S (Unit {0}) → Stage S (Unit {0})
  held body = do
    call p.acquire_lock
    (λ w. let (outcome, w') = body w in unlocked outcome (call (p.release_lock false) w'))

  -- `run`, from a record that is new; the answer is the record.
  unfoldable pub run : Scenario → (verify_telemetry : Bool) → Stage S RunRecord
  unfolding restore_interrupted_runs guarded
  run scenario verify_telemetry = do
    held (restore_interrupted_runs p >> (save >> guarded scenario verify_telemetry))
    gets (λ w. w.current)
