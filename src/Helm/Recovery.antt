-- ===== src/Helm/Recovery.antt =====
-- What happens to a release before it is upgraded.
use kubernetes_distributed_t.Common.{
  arith, contains, eq_iff, nat_eq, option_eq, some, string_eq, true, ℕ, ◌+◌, ◌<◌, ◌↔◌, ◌≡◌, ◌≤◌,
  ◌≢◌, none, ◌∷◌, [], false, ◌⊎◌,
}
use kubernetes_distributed_t.Common.Exec.{ok}
use kubernetes_distributed_t.Helm.{
  HelmApi, ReleaseInfo, pending_release_action, pending_states, rollback, stale_pending_after,
  uninstall, wait,
}

-- A pending release is waited for exactly if it was deployed less than twenty minutes ago; from
-- then on it is removed exactly if its first installation is pending, and rolled back exactly if
-- another change is pending.
pub pending_release_action_iff :
    (info : ReleaseInfo) (now : ℕ)
    → ((pending_release_action info now ≡ wait) ↔ (
        (contains pending_states info.status ≡ true)
        × (now < info.last_deployed + stale_pending_after)))
      × ((pending_release_action info now ≡ uninstall)
          ↔ ((info.status ≡ "pending-install") × (info.last_deployed + stale_pending_after ≤ now)))
      × ((pending_release_action info now ≡ rollback) ↔ (
          (contains pending_states info.status ≡ true)
          × (info.status ≢ "pending-install")
          × (info.last_deployed + stale_pending_after ≤ now)))
unfolding pending_release_action
pending_release_action_iff info now =
    ground (arith, eq_iff info.status "pending-install", eq_iff "pending-install" info.status)

module _ (api : HelmApi) where
  -- The states in which an upgrade may begin, where the release's status was asked for at `s`.
  pub data MayUpgrade (s : api.State) : api.State → Type 0 where
    -- Helm knows no release.
    no_release : (api.status s).0 ≡ ok none → MayUpgrade s (api.status s).1
    -- No change of the release is pending.
    settled :
        (info : ReleaseInfo)
        → (api.status s).0 ≡ ok (some info)
        → contains ("pending-install" ∷ "pending-upgrade" ∷ "pending-rollback" ∷ []) info.status
          ≡ false
        → MayUpgrade s (api.status s).1
    -- A first installation was pending for twenty minutes or more, and the release was removed.
    removed :
        (info : ReleaseInfo)
        → (api.status s).0 ≡ ok (some info)
        → info.status ≡ "pending-install"
        → info.last_deployed + 1200 ≤ api.now (api.status s).1
        → (api.uninstall_release (api.status s).1).0 ≡ ok tt
        → MayUpgrade s (api.uninstall_release (api.status s).1).1
    -- Another change was pending for twenty minutes or more, and the release was rolled back.
    rolled_back :
        (info : ReleaseInfo)
        → (api.status s).0 ≡ ok (some info)
        → (info.status ≡ "pending-upgrade") ⊎ (info.status ≡ "pending-rollback")
        → info.last_deployed + 1200 ≤ api.now (api.status s).1
        → (api.rollback_release (api.status s).1).0 ≡ ok tt
        → MayUpgrade s (api.rollback_release (api.status s).1).1
