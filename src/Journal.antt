-- ===== src/Journal.antt =====
-- The write-ahead journal and the plan that undoes it
-- (automation/src/txplatform/scenarios/journal.py).
pub mod Plan
pub mod Replay
mod Tests
use kubernetes_distributed_t.Common.{
  ℕ, ◌≡◌, ◌↔◌, Bool, true, false, not, ◌&&◌, String, Option, none, some, List, [], ◌∷◌, ◌++◌, map,
  arith, if◌then◌else◌, append_new, Eq, eq_iff, ◌==◌, option_eq, string_eq, nat_eq,
}
use kubernetes_distributed_t.Common.Dict.{Dict, set_default}

-- One line of the journal, by its `kind`. A line of another kind is read and has no effect.
pub data Entry : Type 0 where
  fault : (service pod operation mode : String) → Entry
  scale : (workload : String) (original_replicas replicas : ℕ) → Entry
  rollout_restart : (workload : String) → Entry
  delete_pod : (workload pod uid : String) → Entry
  other : (kind : String) (workload : Option String) → Entry

pub data StepKind : Type 0 where
  clear_faults scale wait_available : StepKind

pub record RestoreStep : Type 0 where
  pub kind : StepKind
  pub target : String
  pub replicas : Option ℕ

-- The three collections that the loop of `restore_plan` fills.
pub record Changes : Type 0 where
  pub fault_services : List String
  pub original_replicas : Dict String ℕ
  pub touched : List String

-- The body of the loop.
unfoldable pub visit : Changes → Entry → Changes
visit c (Entry.fault service _ _ _) = record c {
  fault_services = append_new service c.fault_services;
  touched = append_new service c.touched;
}
visit c (Entry.scale workload original _) = record c {
  original_replicas = set_default workload original c.original_replicas;
  touched = append_new workload c.touched;
}
visit c (rollout_restart workload) = record c { touched = append_new workload c.touched }
visit c (delete_pod workload _ _) = record c { touched = append_new workload c.touched }
visit c (other _ _) = c

unfoldable pub collect : Changes → List Entry → Changes
collect c [] = c
collect c (entry ∷ entries) = collect (visit c entry) entries

abbrev pub no_changes : Changes
no_changes = record { fault_services = []; original_replicas = []; touched = [] }

abbrev pub clear_step : String → RestoreStep
clear_step service = record { kind = clear_faults; target = service; replicas = none }

abbrev pub scale_step : String × ℕ → RestoreStep
scale_step e = record { kind = StepKind.scale; target = e.0; replicas = some (e.1) }

abbrev pub wait_step : String → RestoreStep
wait_step workload = record { kind = wait_available; target = workload; replicas = none }

unfoldable pub restore_plan : List Entry → List RestoreStep
restore_plan entries =
    let c = collect no_changes entries in
    map clear_step c.fault_services
    ++ (map scale_step c.original_replicas ++ map wait_step c.touched)

abbrev pub kind_beq : StepKind → StepKind → Bool
kind_beq clear_faults clear_faults = true
kind_beq StepKind.scale StepKind.scale = true
kind_beq wait_available wait_available = true
kind_beq _ _ = false

pub kind_beq_iff : (a b : StepKind) → (kind_beq a b ≡ true) ↔ (a ≡ b)
kind_beq_iff a b = ground arith

abbrev pub step_beq : RestoreStep → RestoreStep → Bool
step_beq a b = kind_beq a.kind b.kind && (a.target == b.target && a.replicas == b.replicas)

pub step_beq_iff : (a b : RestoreStep) → (step_beq a b ≡ true) ↔ (a ≡ b)
step_beq_iff a b = ground (arith, kind_beq_iff a.kind b.kind, eq_iff a.target b.target)

instance abbrev pub step_eq : Eq RestoreStep
step_eq = record { beq = step_beq; beq_iff = step_beq_iff }
