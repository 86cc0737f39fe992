-- ===== src/Helm/Tests.antt =====
-- A release that another deployment is installing.
use kubernetes_distributed_t.Common.{
  nat_eq, option_eq, refl, some, string_eq, true, ℕ, ◌+◌, ◌<◌, ◌↔◌, ◌≡◌, ◌≤◌, ◌≢◌,
}
use kubernetes_distributed_t.Common.Exec.{Exec, ok, raised, tool_error}
use kubernetes_distributed_t.Helm.{
  HelmApi, ReleaseInfo, pending_release_action, rollback, stale_pending_after, uninstall,
  upgrade_install, wait, recover_interrupted,
}
use kubernetes_distributed_t.Helm.Recovery.{pending_release_action_iff}

abbrev installing : ReleaseInfo
installing = record { status = "pending-install"; last_deployed = 1000 }

-- The state is the time; every command takes a second.
abbrev tick : Exec ℕ (Unit {0})
tick n = (ok tt, n + 1)

abbrev helm : HelmApi
helm = record {
  State = ℕ;
  status = λ n. (ok (some installing), n + 1);
  uninstall_release = tick;
  rollback_release = tick;
  upgrade = tick;
  now = λ n. n;
}

pending_release_action_iff_example :
    ((pending_release_action installing 3000 ≡ wait)
      ↔ ((true ≡ true) × (3000 < 1000 + stale_pending_after)))
    × ((pending_release_action installing 3000 ≡ uninstall)
        ↔ ((installing.status ≡ "pending-install") × (1000 + stale_pending_after ≤ 3000)))
    × ((pending_release_action installing 3000 ≡ rollback) ↔ (
        (true ≡ true)
        × (installing.status ≢ "pending-install")
        × (1000 + stale_pending_after ≤ 3000)))
pending_release_action_iff_example = pending_release_action_iff installing 3000

-- A fresh one is waited for.
upgrades_later :
    upgrade_install helm 1500
    ≡ (raised (tool_error "another deployment may still be running"), 1501)
unfolding upgrade_install recover_interrupted pending_release_action
upgrades_later = refl
