-- ===== src/Workload/Offsets.antt =====
-- How many requests a step has, and when they start.
use mathlib.Core.Option.{get_or}
use kubernetes_distributed_t.Common.{
  List, Option, length-append, All-append, subst, All, arith, length, nat_eq, option_eq, refl,
  string_eq, suc, zero, ℕ, ◌*◌, ◌+◌, ◌<◌, ◌≡◌, ◌≤◌, ◌⊎◌, ◌/◌, true, some, none, ◌-◌, ◌++◌,
}
use kubernetes_distributed_t.Schema.Steps.{SpikeFits, check_profile_iff}
use kubernetes_distributed_t.Schema.{
  Profile, check_profile, WorkloadStep, single, concurrent, burst, steady, spike, has_rate,
}
use kubernetes_distributed_t.Workload.{offsets, schedule, or_default, Offset, at_once, planned}

-- An offset lies before `end` thousandths of a second.
abbrev pub Before : (end : ℕ) → Offset → Type 0
Before end o = o.base * o.rate + o.index * 2_000_000 < 2 * end * o.rate

length-planned : (base rate first n : ℕ) → length (planned base rate first n) ≡ n
unfolding planned
length-planned base rate first zero = refl
length-planned base rate first (suc n) = omega (arith, length-planned base rate (suc first) n)

length-at_once : (n : ℕ) → length (at_once n) ≡ n
unfolding at_once
length-at_once zero = refl
length-at_once (suc n) = omega (arith, length-at_once n)

planned-All :
    (base rate end first n last : ℕ)
    → first + n ≡ last
    → (n ≡ 0) ⊎ (base * rate + last * 2_000_000 < 2 * end * rate + 2_000_000)
    → All (Before end) (planned base rate first n)
unfolding planned
planned-All base rate end first zero last e h = tt
planned-All base rate end first (suc n) last e h =
    (ground arith, planned-All base rate end (suc first) n last (omega arith) (ground arith))

planned-Within :
    (base rate end n : ℕ)
    → base * rate + n * 2_000_000 ≤ 2 * end * rate
    → All (Before end) (planned base rate 0 n)
planned-Within base rate end n h = planned-All base rate end 0 n n (omega arith) (omega (arith, h))

steady-Within :
    (rate duration : ℕ) → All (Before duration) (planned 0 rate 0 (rate * duration / 1_000_000))
steady-Within rate duration =
    planned-Within 0 rate duration (rate * duration / 1_000_000) (omega arith)

module _ (rate rest spike_rate spike_seconds : ℕ) where
  side_Within : All (Before (rest + spike_seconds)) (planned 0 rate 0 (rate * rest / 2_000_000))
  side_Within = planned-Within 0 rate (rest + spike_seconds) (rate * rest / 2_000_000) (omega arith)

  peak_Within :
      All
        (Before (rest + spike_seconds))
        (planned rest spike_rate 0 (spike_rate * spike_seconds / 1_000_000))
  peak_Within =
      planned-Within rest spike_rate (rest + spike_seconds) (spike_rate * spike_seconds / 1_000_000)
        (omega arith)

  tail_Within :
      All
        (Before (rest + spike_seconds))
        (planned (rest + 2 * spike_seconds) rate 0 (rate * rest / 2_000_000))
  tail_Within =
      planned-Within (rest + 2 * spike_seconds) rate (rest + spike_seconds)
        (rate * rest / 2_000_000) (omega arith)

-- How many requests a step of a profile sends: the rate times the time, for each part of it.
abbrev pub size : Profile → (requests rate duration spike_rate spike_seconds : ℕ) → ℕ
size single requests rate duration spike_rate spike_seconds = 1
size concurrent requests rate duration spike_rate spike_seconds = requests
size burst requests rate duration spike_rate spike_seconds = requests
size steady requests rate duration spike_rate spike_seconds = rate * duration / 1_000_000
size spike requests rate duration spike_rate spike_seconds =
    2 * (rate * (duration - spike_seconds) / 2_000_000) + spike_rate * spike_seconds / 1_000_000

length-offsets :
    (p : Profile) (requests rate duration spike_rate spike_seconds : ℕ)
    → length (offsets p requests rate duration spike_rate spike_seconds)
      ≡ size p requests rate duration spike_rate spike_seconds
unfolding offsets
length-offsets single requests rate duration spike_rate spike_seconds = length-at_once 1
length-offsets concurrent requests rate duration spike_rate spike_seconds = length-at_once requests
length-offsets burst requests rate duration spike_rate spike_seconds = length-at_once requests
length-offsets steady requests rate duration spike_rate spike_seconds =
    length-planned 0 rate 0 (rate * duration / 1_000_000)
length-offsets spike requests rate duration spike_rate spike_seconds =
    let rest = duration - spike_seconds in
    let side = rate * rest / 2_000_000 in
    let peak = planned rest spike_rate 0 (spike_rate * spike_seconds / 1_000_000) in
    let tail = planned (rest + 2 * spike_seconds) rate 0 side in
    omega (
      arith,
      length-append (planned 0 rate 0 side) (peak ++ tail),
      length-append peak tail,
      length-planned 0 rate 0 side,
      length-planned rest spike_rate 0 (spike_rate * spike_seconds / 1_000_000),
      length-planned (rest + 2 * spike_seconds) rate 0 side,
    )

-- A step sends one request, its number of requests, or as many as its rates and times give.
pub length-schedule :
    (step : WorkloadStep)
    → length (schedule step)
      ≡ size step.profile step.requests
          (get_or step.rate_per_second 0)
          (get_or step.duration_seconds 0)
          (or_default step.spike_rate_per_second (get_or step.rate_per_second 0))
          (get_or step.spike_seconds 0)
unfolding schedule
length-schedule step =
    length-offsets step.profile step.requests (get_or step.rate_per_second 0)
      (get_or step.duration_seconds 0)
      (or_default step.spike_rate_per_second (get_or step.rate_per_second 0))
      (get_or step.spike_seconds 0)

offsets-Within :
    (p : Profile) (requests rate duration spike_rate spike_seconds : ℕ)
    → has_rate p ≡ true
    → (p ≡ spike → spike_seconds < duration)
    → All (Before duration) (offsets p requests rate duration spike_rate spike_seconds)
unfolding offsets
offsets-Within single requests rate duration spike_rate spike_seconds h fits = cc
offsets-Within concurrent requests rate duration spike_rate spike_seconds h fits = cc
offsets-Within burst requests rate duration spike_rate spike_seconds h fits = cc
offsets-Within steady requests rate duration spike_rate spike_seconds h fits =
    steady-Within rate duration
offsets-Within spike requests rate duration spike_rate spike_seconds h fits =
    let rest = duration - spike_seconds in
    let total : rest + spike_seconds ≡ duration = omega (arith, fits refl) in
    let within = λ (offsets : List Offset). λ (h : All (Before (rest + spike_seconds)) offsets).
      subst (λ d. All (Before d) offsets) total h in
    All-append (Before duration) _ _ (within _ (side_Within rate rest spike_rate spike_seconds)) (
      All-append (Before duration) _ _ (within _ (peak_Within rate rest spike_rate spike_seconds))
        (within _ (tail_Within rate rest spike_rate spike_seconds)))

fits_spike : (r s d : Option ℕ) (n : ℕ) → d ≡ some n → SpikeFits r s d → get_or s 0 < n
fits_spike none s d n e h = absurd h
fits_spike (some r) none d n e h = absurd h
fits_spike (some r) (some s) none n e h = absurd h
fits_spike (some r) (some s) (some d) n e h = let same : d ≡ n = cc in omega (arith, same, h)

-- Every request of an accepted steady or spike step starts before the step's duration is over.
pub schedule-Before :
    (step : WorkloadStep) (duration : ℕ)
    → check_profile step ≡ none
    → has_rate step.profile ≡ true
    → step.duration_seconds ≡ some duration
    → All (Before duration) (schedule step)
unfolding schedule
schedule-Before step duration accepted rated e =
    let playable = (check_profile_iff step).0 accepted in
    let same : get_or step.duration_seconds 0 ≡ duration = rw e refl in
    subst (λ d. All (Before d) (schedule step)) same
      (offsets-Within step.profile step.requests (get_or step.rate_per_second 0)
        (get_or step.duration_seconds 0)
        (or_default step.spike_rate_per_second (get_or step.rate_per_second 0))
        (get_or step.spike_seconds 0) rated
        (λ is_spike.
          fits_spike step.spike_rate_per_second step.spike_seconds step.duration_seconds
            (get_or step.duration_seconds 0) (rw e refl) (playable.spiked is_spike)))
