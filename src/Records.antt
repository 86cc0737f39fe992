-- ===== src/Records.antt =====
-- The record of a run (automation/src/txplatform/scenarios/records.py). The records on disk are a
-- dictionary from a directory's name to the record in it; reading and writing files is not
-- modelled, nor are a check's detail and the dates, which are texts for people.
pub mod Store
mod Tests
use kubernetes_distributed_t.Schema.{Mode}
use kubernetes_distributed_t.Common.{
  Bool, List, Option, String, [], all, false, filter, if◌then◌else◌, is_empty, last, nat_eq, none,
  not, option_eq, some, string_eq, true, ℕ, ◌&&◌, ◌++◌, ◌-◌, ◌∷◌,
}
use kubernetes_distributed_t.Common.Dict.{Dict, keys, lookup}
use kubernetes_distributed_t.Common.Exec.{Error}
use kubernetes_distributed_t.Common.Sort.{sort_by, str_leb}
use kubernetes_distributed_t.Common.Texts.{concat, mentions}
use kubernetes_distributed_t.Engine.{KubernetesEvent}
use kubernetes_distributed_t.Expectations.{Order}
use kubernetes_distributed_t.Workload.{RequestRecord}

pub data Status : Type 0 where
  running passed failed interrupted error : Status

abbrev pub is_running : Status → Bool
is_running running = true
is_running _ = false

pub record Check : Type 0 where
  pub layer : String
  pub name : String
  pub passed : Bool

-- What `run` notes of a fault.
pub record FaultRecord : Type 0 where
  pub service : String
  pub operation : String
  pub mode : Mode
  pub pods : List String

-- Times are seconds of the clock; a counter is a natural number.
pub record RunRecord : Type 0 where
  pub run_id : String
  pub scenario_id : String
  pub status : Status
  pub workload_started_at : ℕ
  pub workload_finished_at : ℕ
  pub requests : List RequestRecord
  pub orders : Dict String Order
  pub kubernetes_events : List KubernetesEvent
  pub faults : List FaultRecord
  pub checks : List Check
  pub metrics_before : Dict String ℕ
  pub restored : Bool
  pub error : Option Error

-- `new_run_id`, from the time and the random digits
abbrev pub new_run_id : (stamp scenario_id digits : String) → String
new_run_id stamp scenario_id digits = concat (stamp ∷ "-" ∷ scenario_id ∷ "-" ∷ digits ∷ [])

abbrev pub new_record : (run_id scenario_id : String) → RunRecord
new_record run_id scenario_id = record {
  run_id = run_id;
  scenario_id = scenario_id;
  status = running;
  workload_started_at = 0;
  workload_finished_at = 0;
  requests = [];
  orders = [];
  kubernetes_events = [];
  faults = [];
  checks = [];
  metrics_before = [];
  restored = false;
  error = none;
}

unfoldable pub add_check : (name : String) (verdict : Bool) (layer : String) → RunRecord → RunRecord
add_check name verdict layer r = record r {
  checks = r.checks ++ record { layer = layer; name = name; passed = verdict } ∷ [];
}

-- The property `passed`
unfoldable pub has_passed : RunRecord → Bool
has_passed r = not (is_empty r.checks) && all (λ c. c.passed) r.checks

-- The names of the directories of the records, sorted.
abbrev pub sorted_names : Dict String RunRecord → List String
sorted_names store = sort_by str_leb (keys store)

-- The record of a name, where it is not restored.
abbrev pub if_unrestored : Option RunRecord → List RunRecord
if_unrestored none = []
if_unrestored (some r) = if r.restored then [] else r ∷ []

unfoldable pub unrestored_of : Dict String RunRecord → List String → List RunRecord
unrestored_of store [] = []
unrestored_of store (name ∷ names) = if_unrestored (lookup name store) ++ unrestored_of store names

unfoldable pub unrestored_runs : Dict String RunRecord → List RunRecord
unfolding unrestored_of sort_by
unrestored_runs store = unrestored_of store (sorted_names store)

-- `scenario_id is None or f"-{scenario_id}-" in name`
abbrev pub belongs : Option String → String → Bool
belongs none name = true
belongs (some scenario_id) name = mentions name (concat ("-" ∷ scenario_id ∷ "-" ∷ []))

unfoldable pub latest_run_id : Dict String RunRecord → Option String → Option String
unfolding sort_by mentions
latest_run_id store scenario_id = last (sort_by str_leb (filter (belongs scenario_id) (keys store)))
