-- ===== src/Schema/Steps.antt =====
-- What accepted Kubernetes actions, traffic steps and count rules look like.
use kubernetes_distributed_t.Common.{
  Option, arith, false, is_none, nat_eq, none, not, option_eq, refl, some, string_eq, true, ℕ, ◌&&◌,
  ◌<◌, ◌||◌, ◌↔◌, ◌≡◌, ◌≢◌, ◌⊎◌,
}
use kubernetes_distributed_t.Common.Dict.{lookup}
use kubernetes_distributed_t.Schema.{
  KubernetesAction, WorkloadStep, check_action, check_profile, has_rate, is_scenario_runner,
  is_spike, not_below, scale, scenario_runner, spike, steady, workloads,
}

-- An action passes its validators exactly if its workload is known, it names a replica count
-- exactly if it scales, and only a scaling may name a time after which to restore.
pub check_action_iff :
    (a : KubernetesAction)
    → (check_action a ≡ none) ↔ (
        (lookup a.workload workloads ≢ none)
        × ((a.action ≡ scale) ↔ (a.replicas ≢ none))
        × (a.restore_after_seconds ≢ none → a.action ≡ scale))
unfolding check_action
check_action_iff a = ground arith

-- The spike's rate and length are there, and it is shorter than the step.
abbrev pub SpikeFits : (rate seconds duration : Option ℕ) → Type 0
SpikeFits (some r) (some s) (some d) = s < d
SpikeFits _ _ _ = ⊥

-- The consistency of a traffic step.
pub record IsPlayable (w : WorkloadStep) : Type 0 where
  pub rated :
      (w.profile ≡ steady) ⊎ (w.profile ≡ spike)
      → (w.rate_per_second ≢ none) × (w.duration_seconds ≢ none)
  pub spiked :
      w.profile ≡ spike → SpikeFits w.spike_rate_per_second w.spike_seconds w.duration_seconds
  pub traced : w.debug ≡ true → w.identity ≡ scenario_runner

SpikeFits-iff :
    (r s d : Option ℕ)
    → SpikeFits r s d ↔ ((r ≢ none) × (s ≢ none) × (d ≢ none) × (not_below s d ≡ false))
SpikeFits-iff none s d = (λ h. absurd h, λ h. absurd (h.0 refl))
SpikeFits-iff (some r) none d = (λ h. absurd h, λ h. absurd (h.1 refl))
SpikeFits-iff (some r) (some s) none = (λ h. absurd h, λ h. absurd (h.2 refl))
SpikeFits-iff (some r) (some s) (some d) =
    (λ h. (λ e. cc, λ e. cc, λ e. cc, ground arith), λ h. ground arith)

check_profile_sound : (w : WorkloadStep) → check_profile w ≡ none → IsPlayable w
unfolding check_profile
check_profile_sound w h = record {
  rated = ground arith;
  spiked = λ e.
      (SpikeFits-iff w.spike_rate_per_second w.spike_seconds w.duration_seconds).1 (ground arith);
  traced = ground arith;
}

check_profile_complete : (w : WorkloadStep) → IsPlayable w → check_profile w ≡ none
unfolding check_profile
check_profile_complete w p =
    let fits = (SpikeFits-iff w.spike_rate_per_second w.spike_seconds w.duration_seconds).0 in
    let rated : (has_rate w.profile && (is_none w.rate_per_second || is_none w.duration_seconds))
        ≡ false =
      ground (arith, p.rated) in
    let spiked : (is_spike w.profile
          && (is_none w.spike_rate_per_second || is_none w.spike_seconds))
        ≡ false =
      ground (arith, p.spiked, fits) in
    let shorter : (is_spike w.profile && not_below w.spike_seconds w.duration_seconds) ≡ false =
      ground (arith, p.spiked, fits) in
    let traced : (w.debug && not (is_scenario_runner w.identity)) ≡ false =
      ground (arith, p.traced) in
    rw (rated, spiked, shorter, traced)

-- A traffic step passes its validator exactly if it is playable.
pub check_profile_iff : (w : WorkloadStep) → (check_profile w ≡ none) ↔ IsPlayable w
check_profile_iff w = (check_profile_sound w, check_profile_complete w)
