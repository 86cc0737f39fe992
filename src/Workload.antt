-- ===== src/Workload.antt =====
-- The traffic of a scenario (automation/src/txplatform/scenarios/workload.py): the schedule of a
-- step's requests, the record of a request, and the tampering of a token. Sending is not modelled.
-- A float is exact: rates and times of a step are thousandths, as in the schema.
pub mod Offsets
pub mod Tokens
pub mod Sending
mod Tests
use mathlib.Core.Option.{get_or}
use kubernetes_distributed_t.Common.{
  List, Option, String, [], if◌then◌else◌, nat_eq, none, option_eq, some, string_eq, suc, zero, ℕ,
  ◌!=◌, ◌*◌, ◌++◌, ◌+◌, ◌-◌, ◌/◌, ◌==◌, ◌∷◌,
}
use kubernetes_distributed_t.Common.Exec.{Result, index_error, ok, raised}
use kubernetes_distributed_t.Schema.{
  Profile, WorkloadStep, single, concurrent, burst, steady, spike,
}
use kubernetes_distributed_t.Common.Texts.{rpartition}

-- A planned start: `base` halves of a millisecond and `index / rate` seconds, where the rate is in
-- thousandths of a request per second.
pub record Offset : Type 0 where
  pub base : ℕ
  pub index : ℕ
  pub rate : ℕ

-- `[base + i / rate for i in range(first, first + n)]`
unfoldable pub planned : (base rate first n : ℕ) → List Offset
planned base rate first zero = []
planned base rate first (suc n) =
    record { base = base; index = first; rate = rate } ∷ planned base rate (suc first) n

-- `[0.0] * n`; any rate serves for the index 0.
unfoldable pub at_once : ℕ → List Offset
at_once zero = []
at_once (suc n) = record { base = 0; index = 0; rate = 1 } ∷ at_once n

-- `value or other`
abbrev pub or_default : Option ℕ → ℕ → ℕ
or_default none other = other
or_default (some n) other = if n == 0 then other else n

-- `schedule` by the profile. The validator has a spike shorter than its step.
unfoldable pub offsets :
    Profile → (requests rate duration spike_rate spike_seconds : ℕ) → List Offset
unfolding planned at_once
offsets single requests rate duration spike_rate spike_seconds = at_once 1
offsets concurrent requests rate duration spike_rate spike_seconds = at_once requests
offsets burst requests rate duration spike_rate spike_seconds = at_once requests
offsets steady requests rate duration spike_rate spike_seconds =
    planned 0 rate 0 (rate * duration / 1_000_000)
offsets spike requests rate duration spike_rate spike_seconds =
    let rest = duration - spike_seconds in
    let side = rate * rest / 2_000_000 in
    planned 0 rate 0 side
    ++ (planned rest spike_rate 0 (spike_rate * spike_seconds / 1_000_000)
        ++ planned (rest + 2 * spike_seconds) rate 0 side)

unfoldable pub schedule : WorkloadStep → List Offset
unfolding offsets
schedule step =
    let rate = get_or step.rate_per_second 0 in
    offsets step.profile step.requests rate (get_or step.duration_seconds 0)
      (or_default step.spike_rate_per_second rate) (get_or step.spike_seconds 0)

-- What is kept of a request; the times are microseconds.
pub record RequestRecord : Type 0 where
  pub step : ℕ
  pub sequence : ℕ
  pub label : String
  pub planned_offset : Offset
  pub started_at : ℕ
  pub duration : ℕ
  pub status : ℕ
  pub correlation_id : String
  pub kong_request_id : String
  pub trace_id : String
  pub order_id : String
  pub state : String
  pub error : String

pub record WorkloadResult : Type 0 where
  pub requests : List RequestRecord
  pub started_at : ℕ
  pub finished_at : ℕ

-- A text as its code points. `.` is 46, `A` is 65, `B` is 66.
abbrev pub dot : ℕ
dot = 46

-- Where there is no dot, the head is empty.
abbrev pub parts_of : List ℕ → Option (List ℕ × List ℕ) → List ℕ × List ℕ
parts_of token none = ([], token)
parts_of token (some p) = p

-- `signature[:-1]` and `signature[-1]`
unfoldable pub unsnoc : List ℕ → Option (List ℕ × ℕ)
unsnoc [] = none
unsnoc (c ∷ []) = some ([], c)
unsnoc (c ∷ d ∷ cs) = elim (unsnoc (d ∷ cs)) [ none ↦ none | some (xs, x) ↦ some (c ∷ xs, x) ]

abbrev pub replaced : ℕ → ℕ
replaced c = if c != 65 then 65 else 66

abbrev pub joined : (head : List ℕ) → Option (List ℕ × ℕ) → Result (List ℕ)
joined head none = raised (index_error "string index out of range")
joined head (some (body, c)) = ok (head ++ dot ∷ (body ++ replaced c ∷ []))

unfoldable pub tamper : List ℕ → Result (List ℕ)
unfolding rpartition unsnoc
tamper token =
    let (head, signature) = parts_of token (rpartition dot token) in joined head (unsnoc signature)
