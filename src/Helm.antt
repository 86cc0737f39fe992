-- ===== src/Helm.antt =====
-- Helm releases that an interrupted deployment left pending (automation/src/txplatform/helm.py).
-- The Helm program is the parameter `HelmApi`; times are seconds.
pub mod Recovery
mod Tests
use kubernetes_distributed_t.Common.{
  Bool, List, Option, String, [], contains, if◌then◌else◌, ltb, nat_eq, none, not, option_eq, some,
  string_eq, ℕ, ◌*◌, ◌+◌, ◌==◌, ◌∷◌,
}
use kubernetes_distributed_t.Common.Exec.{Exec, ok, pure, raise, tool_error, ◌>>=◌, ◌>>◌}

abbrev pub pending_states : List String
pending_states = "pending-install" ∷ "pending-upgrade" ∷ "pending-rollback" ∷ []

-- twenty minutes
abbrev pub stale_pending_after : ℕ
stale_pending_after = 20 * 60

pub record ReleaseInfo : Type 0 where
  pub status : String
  pub last_deployed : ℕ

pub data ReleaseAction : Type 0 where
  proceed wait uninstall rollback : ReleaseAction

-- `now - last_deployed < STALE_PENDING_AFTER`
abbrev pub is_fresh : ReleaseInfo → ℕ → Bool
is_fresh info now = ltb now (info.last_deployed + stale_pending_after)

unfoldable pub pending_release_action : ReleaseInfo → (now : ℕ) → ReleaseAction
pending_release_action info now =
    if not (contains pending_states info.status)
    then proceed
    else if is_fresh info now
    then wait
    else if info.status == "pending-install"
    then uninstall
    else rollback

-- Helm's commands for one release, and the clock. `status` answers none where Helm fails.
pub record HelmApi : Type 1 where
  pub State : Type 0
  pub status : Exec State (Option ReleaseInfo)
  pub uninstall_release : Exec State (Unit {0})
  pub rollback_release : Exec State (Unit {0})
  pub upgrade : Exec State (Unit {0})
  pub now : State → ℕ

module _ (api : HelmApi) where
  abbrev pub take_action : ReleaseAction → Exec api.State (Unit {0})
  take_action proceed = pure tt
  take_action wait = raise (tool_error "another deployment may still be running")
  take_action uninstall = api.uninstall_release
  take_action rollback = api.rollback_release

  abbrev pub recover_from : Option ReleaseInfo → Exec api.State (Unit {0})
  recover_from none s = (ok tt, s)
  recover_from (some info) s = take_action (pending_release_action info (api.now s)) s

  unfoldable pub recover_interrupted : Exec api.State (Unit {0})
  unfolding pending_release_action
  recover_interrupted = api.status >>= recover_from

  unfoldable pub upgrade_install : Exec api.State (Unit {0})
  unfolding recover_interrupted
  upgrade_install = recover_interrupted >> api.upgrade
