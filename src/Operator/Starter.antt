-- ===== src/Operator/Starter.antt =====
-- pkg/operator/starter.go: the version that is reported, the watch of the build capability, and the
-- removal of the daemon set that the deployment has replaced. Run is RunOperator.
pub mod Cleanup
pub mod Run
pub mod Checks
use cluster_openshift_contro.Common.{
  ◌||◌, ℕ, zero, suc, String, List, [], ◌∷◌, Option, none, some, Bool, true, false, if◌then◌else◌,
  is_empty, Assoc,
}
use cluster_openshift_contro.Cluster.{ClusterVersion, capability_enabled}
use cluster_openshift_contro.Names.{capability_build}
use cluster_openshift_contro.Common.Fault.{Fault, Result, ok, err, is_not_found}
use cluster_openshift_contro.Common.Int.{ℤ, pos, int_eq}

-- GetVersions, from the version of the operator's status
unfoldable pub get_versions : Result String → Assoc String
get_versions (err e) = []
get_versions (ok version) = if is_empty version then [] else ("operator", version) ∷ []

-- What `ensureDaemonSetCleanup` calls: is the daemon set marked for deletion, the available replicas
-- of the deployment, the delete, and the event.
pub record Apps (W : Type 0) : Type 0 where
  pub get_daemon_set : W → Result Bool
  pub get_deployment : W → Result ℤ
  pub delete_daemon_set : W → Option Fault × W
  pub record_event : String → W → W

module _ {W : Type 0} (apps : Apps W) where
  abbrev pub removed_event : String
  removed_event = "legacy daemonset has been removed"

  abbrev pub waiting_event : String
  waiting_event = "the deployment replacing the daemonset does not have available replicas yet"

  abbrev pub after_delete : Option Fault × W → Bool × W
  after_delete (none, w) = (false, apps.record_event removed_event w)
  after_delete (some e, w) =
      if is_not_found e then (false, apps.record_event removed_event w) else (false, w)

  abbrev pub with_deployment : Result ℤ → W → Bool × W
  with_deployment (err e) w = (false, w)
  with_deployment (ok available) w =
      if int_eq available (pos 0)
      then (false, apps.record_event waiting_event w)
      else after_delete (apps.delete_daemon_set w)

  abbrev pub with_daemon_set : Result Bool → W → Bool × W
  with_daemon_set (err e) w = if is_not_found e then (true, w) else (false, w)
  with_daemon_set (ok true) w = (true, w)
  with_daemon_set (ok false) w = with_deployment (apps.get_deployment w) w

  -- The condition that is polled: is it done?
  unfoldable pub poll : W → Bool × W
  poll w = with_daemon_set (apps.get_daemon_set w) w

  abbrev pub poll_again : Bool × W → (W → Bool × W) → Bool × W
  poll_again (true, w) next = (true, w)
  poll_again (false, w) next = next w

  -- wait.PollImmediateUntil over so many polls before the context ends.
  unfoldable pub ensure_daemon_set_cleanup : ℕ → W → Bool × W
  unfolding poll
  ensure_daemon_set_cleanup zero w = (false, w)
  ensure_daemon_set_cleanup (suc polls) w = poll_again (poll w) (ensure_daemon_set_cleanup polls)

-- The loop over the enabled capabilities: is the build capability among them?
unfoldable pub build_capability_enabled : ClusterVersion → Bool
unfolding capability_enabled
build_capability_enabled cv = capability_enabled capability_build cv

-- The goroutine of a process that started without the build capability, over the answers of the
-- lister at its ticks: does it stop the process? An error waits for the next tick.
unfoldable pub capability_changed : List (Result ClusterVersion) → Bool
unfolding build_capability_enabled
capability_changed [] = false
capability_changed (err e ∷ ticks) = capability_changed ticks
capability_changed (ok cv ∷ ticks) = build_capability_enabled cv || capability_changed ticks
