-- ===== src/Experiment/Ending.antt =====
-- How a run ends, whatever its phases raise.
use kubernetes_distributed_t.Experiment.Running.{
  after_restore, application_checks, attempt, excepted, finally_restore, guarded, if_ready, inject,
  judge, read_back_orders, refused, restore_current, run_phases, traffic, update,
}
use kubernetes_distributed_t.Experiment.Checking.{Issue, preflight}
use kubernetes_distributed_t.Experiment.{Phases, Run, Stage, call, set, has_passed, passed, failed}
use kubernetes_distributed_t.Records.{RunRecord, is_running}
use kubernetes_distributed_t.Schema.{Scenario}
use kubernetes_distributed_t.Common.{
  refl, Bool, false, nat_eq, option_eq, string_eq, subst, sym, ◌≡◌, List, if_holds, true, ◌∷◌, some,
  ◌⊎◌, [], if◌then◌else◌, inl, inr,
}
use kubernetes_distributed_t.Common.Dict.{lookup, lookup-insert_same}
use kubernetes_distributed_t.Common.Exec.{
  bind-eq-ok, ok, ◌>>=◌, Result, when, raised, for_each, Error, and_then, keyboard_interrupt,
}

-- A successful statement leaves a record as `P` says.
pub record Leaves {S A : Type 0} (P : RunRecord → Type 0) (m : Stage S A) : Type 0 where
  pub at : (w : Run S) (a : A) → (m w).0 ≡ ok a → P (m w).1.current

bind-Leaves :
    {S A B : Type 0} {P : RunRecord → Type 0} (m : Stage S A) (f : A → Stage S B)
    → ((a : A) → Leaves P (f a))
    → Leaves P (m >>= f)
bind-Leaves {P = P} m f h = record {
  at = λ w b e.
      let (a, ran, went, left) = bind-eq-ok m f w e in
      subst (λ (x : Run _). P x.current) (sym left) ((h a).at (m w).1 b went);
}

set-Leaves :
    {S : Type 0} {P : RunRecord → Type 0} (f : RunRecord → RunRecord)
    → ((r : RunRecord) → P (f r))
    → Leaves {S = S} P (set f)
set-Leaves f h = record { at = λ w a e. h w.current }

-- The run has come to an end.
abbrev pub IsOver : RunRecord → Type 0
IsOver r = is_running r.status ≡ false

module _ {S : Type 0} (p : Phases S) (scenario : Scenario) (verify_telemetry : Bool) where
  judge-IsOver : (r : RunRecord) → IsOver (judge p r)
  judge-IsOver r =
      if_holds (λ status. is_running status ≡ false) (has_passed r) passed failed (λ _. refl)
        (λ _. refl)

  run_phases-IsOver : Leaves IsOver (run_phases p scenario verify_telemetry)
  unfolding run_phases
  run_phases-IsOver = bind-Leaves (call p.reset_circuit_breakers) _ (λ _.
      bind-Leaves (when verify_telemetry (update p (p.snapshot_metrics scenario.telemetry))) _ (λ _.
        bind-Leaves (for_each scenario.faults (inject p)) _ (λ _.
          bind-Leaves (traffic p scenario) _ (λ _. bind-Leaves (restore_current p) _ (λ _.
            bind-Leaves (read_back_orders p) _ (λ _.
              bind-Leaves (application_checks p scenario) _ (λ _.
                bind-Leaves (when verify_telemetry (update p (p.verify scenario.telemetry))) _
                  (λ _. set-Leaves (judge p) judge-IsOver))))))))

  if_ready-IsOver :
      (problems : List Issue)
      → Leaves IsOver (if_ready p problems (run_phases p scenario verify_telemetry))
  if_ready-IsOver [] = run_phases-IsOver
  if_ready-IsOver (problem ∷ problems) = set-Leaves (refused p) (λ r. refl)

  attempt-IsOver : Leaves IsOver (attempt p scenario verify_telemetry)
  unfolding attempt
  attempt-IsOver = bind-Leaves (call (preflight p)) _ if_ready-IsOver

  excepted-IsOver :
      (outcome : Result (Unit {0}) × Run S)
      → (outcome.0 ≡ ok tt → IsOver outcome.1.current)
      → IsOver (excepted p outcome).1.current
  excepted-IsOver (ok _, w) h = h refl
  excepted-IsOver (raised keyboard_interrupt, w) h = refl
  excepted-IsOver (raised e, w) h = refl

  -- The end of a run: its record says that it is over and restored, and stands on disk so; or the
  -- restoring raised, and that is what the run raises.
  abbrev pub Ended : Result (Unit {0}) × Run S → Type 0
  Ended q =
      (IsOver q.1.current
        × (q.1.current.restored ≡ true)
        × (lookup q.1.current.run_id q.1.saved ≡ some q.1.current))
      ⊎ ((s : S) × (e : Error) × ((p.restore q.1.current.run_id s).0 ≡ raised e) × (q.0 ≡ raised e))

  -- What a restoring in `finally` gives: a record that is over and restored, or an exception of it.
  abbrev Settled : Result (Unit {0}) × Run S → Type 0
  Settled (ok _, w) = IsOver w.current × (w.current.restored ≡ true)
  Settled (raised e, w) = (s : S) × ((p.restore w.current.run_id s).0 ≡ raised e)

  after_restore-Ended :
      (outcome : Result (Unit {0})) (q : Result (Unit {0}) × Run S)
      → Settled q
      → Ended (after_restore p outcome q)
  after_restore-Ended outcome (ok _, w) (over, restored) =
      inl (over, restored, lookup-insert_same w.current.run_id w.current w.saved)
  after_restore-Ended outcome (raised e, w) (s, h) = inr (s, e, h, refl)

  marked-Settled :
      (r : Result (Unit {0})) (w : Run S) (s : S)
      → IsOver w.current
      → (p.restore w.current.run_id s).0 ≡ r
      → Settled (and_then r (λ _. set (λ c. record c { restored = true })) w)
  marked-Settled (ok u) w s over h = (over, refl)
  marked-Settled (raised e) w s over h = (s, h)

  finally_restore-Ended :
      (outcome : Result (Unit {0})) (w : Run S)
      → IsOver w.current
      → Ended (finally_restore p (outcome, w))
  unfolding finally_restore restore_current
  finally_restore-Ended outcome w over =
      let restoring = p.restore w.current.run_id w.outside in
      after_restore-Ended outcome (if w.current.restored then (ok tt, w) else restore_current p w) (
        if_holds Settled w.current.restored (ok tt, w) (restore_current p w)
          (λ restored. (over, restored))
          (λ unrestored.
            marked-Settled restoring.0 (record w { outside = restoring.1 }) w.outside over refl))

  -- However a run goes once the lock is held and its record is written, whatever its phases raise,
  -- it ends with a record that says that it is over and restored, and that stands on disk so; or
  -- the last restoring raised an exception, and that is what the run raises.
  pub guarded-Ended : (w : Run S) → Ended (guarded p scenario verify_telemetry w)
  unfolding guarded
  guarded-Ended w =
      let (outcome, left) = excepted p (attempt p scenario verify_telemetry w) in
      finally_restore-Ended outcome left
        (excepted-IsOver (attempt p scenario verify_telemetry w) (attempt-IsOver.at w tt))
