-- ===== src/Cleanup.antt =====
-- pkg/operator/internalimageregistry/cleanup_controller.go: once the internal image registry is
-- disabled, the image pull secrets that the controller manager generated are deleted.
pub mod Objects
pub mod Account
pub mod Requests
pub mod Safety
pub mod Refs
pub mod Stages
pub mod Staged
pub mod Rounds
pub mod Extends
pub mod Outcomes
pub mod Complete
pub mod Checks
pub mod CompleteChecks
use cluster_openshift_contro.Common.{String, List, [], ◌∷◌, ◌++◌, Bool, true, false, if◌then◌else◌}
use cluster_openshift_contro.Common.Fault.{Fault, Result, ok, err, wrap}
use cluster_openshift_contro.Cluster.{Lister, ClusterVersion, ClusterOperator}
use cluster_openshift_contro.Registry.{image_registry_is_enabled}
use cluster_openshift_contro.Cleanup.Objects.{ServiceAccount, Kube}
use cluster_openshift_contro.Cleanup.Account.{Flow, State, cleanup_account}

abbrev pub goes_on : Flow → Bool
goes_on Flow.continue = true
goes_on _ = false

module _ {W : Type 0} (k : Kube W) where
  -- A round that goes on is followed by the next service account; any other ends the loop.
  unfoldable pub cleanup_loop : List ServiceAccount → State W → Flow × State W
  cleanup_loop [] s = (Flow.return_nil, s)
  cleanup_loop (sa ∷ rest) s =
      let (flow, s') = cleanup_account k sa s in
      let later = cleanup_loop rest (record s' { world = k.next s'.world }) in
      if goes_on flow then later else (flow, s')

  abbrev pub cleanup_listed : Result (List ServiceAccount) → State W → Flow × State W
  cleanup_listed (err e) s = (Flow.fail (wrap "unable to list ServiceAccounts: " e), s)
  cleanup_listed (ok accounts) s = cleanup_loop accounts s

  unfoldable pub cleanup : State W → Flow × State W
  cleanup s = cleanup_listed (k.list_service_accounts s.world) s

  abbrev pub sync_enabled : Result Bool → State W → Flow × State W
  sync_enabled (err e) s = (Flow.fail e, s)
  sync_enabled (ok true) s = (Flow.return_nil, s)
  sync_enabled (ok false) s = cleanup s

  unfoldable pub sync : Lister ClusterVersion → Lister ClusterOperator → State W → Flow × State W
  sync versions operators s = sync_enabled (image_registry_is_enabled versions operators) s
