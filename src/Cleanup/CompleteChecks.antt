-- ===== src/Cleanup/CompleteChecks.antt =====
-- The theorems on complete syncs of the cleanup controller at concrete inputs.
use cluster_openshift_contro.Common.{[], ◌∷◌, ◌≡◌, ◌≤◌, ◌*◌, false, refl, length, lookup}
use cluster_openshift_contro.Common.Fault.{ok}
use cluster_openshift_contro.Registry.{image_registry_is_enabled}
use cluster_openshift_contro.Cleanup
use cluster_openshift_contro.Cleanup.Account
use cluster_openshift_contro.Cleanup.Account.{
  Flow, cleanup_account, image_pull_secret_for_service_account, image_pull_secret_in_use,
  token_secret_for_image_pull_secret,
}
use cluster_openshift_contro.Cleanup.{sync}
use cluster_openshift_contro.Cleanup.Rounds.{begin}
use cluster_openshift_contro.Cleanup.Complete.{IsComplete, sync-IsComplete, sync-sent}
use cluster_openshift_contro.Cleanup.Checks.{kube, no_registry, no_operator, account}

no_registry_disabled : image_registry_is_enabled no_registry no_operator ≡ ok false
unfolding image_registry_is_enabled
no_registry_disabled = refl

sync_ended :
    (sync kube no_registry no_operator (begin kube no_registry no_operator [])).0 ≡ Flow.return_nil
unfolding sync Cleanup.cleanup Cleanup.cleanup_loop cleanup_account Account.cleanup_secret
    Account.remove_secrets image_pull_secret_for_service_account image_pull_secret_in_use
    token_secret_for_image_pull_secret image_registry_is_enabled lookup
sync_ended = refl

sync-IsComplete_example :
    IsComplete kube
      (account ∷ [])
      (begin kube no_registry no_operator [])
      (sync kube no_registry no_operator (begin kube no_registry no_operator [])).1
sync-IsComplete_example =
    sync-IsComplete kube no_registry no_operator [] {accounts = account ∷ []} no_registry_disabled
      refl sync_ended

sync-sent_example :
    length (sync kube no_registry no_operator (begin kube no_registry no_operator [])).1.requests
    ≤ 3 * length (account ∷ [])
sync-sent_example = sync-sent kube no_registry no_operator [] {accounts = account ∷ []} refl
