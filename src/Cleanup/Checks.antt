-- ===== src/Cleanup/Checks.antt =====
-- Runs of the cleanup controller, and its theorems at concrete inputs.
use cluster_openshift_contro.Common.{
  String, List, [], ◌∷◌, ◌++◌, none, some, false, ◌≡◌, ◌≢◌, refl, arith, eq_iff, ◌==◌,
  if◌then◌else◌, All, lookup,
}
use cluster_openshift_contro.Common.Fault.{Fault, Reason, ok, err}
use cluster_openshift_contro.Cluster.{Lister, ClusterVersion, ClusterOperator}
use cluster_openshift_contro.Registry.{image_registry_is_enabled}
use cluster_openshift_contro.Cleanup.Objects.{Secret, ServiceAccount, Kube}
use cluster_openshift_contro.Cleanup.Account.{
  State, Flow, Request, cleanup_account, image_pull_secret_name, without_refs, real_error,
  object_names, local_names, pull_secret_ref_annotation, image_pull_secret_for_service_account,
  is_recent, image_pull_secret_in_use, token_secret_for_image_pull_secret,
}
use cluster_openshift_contro.Cleanup
use cluster_openshift_contro.Cleanup.Account
use cluster_openshift_contro.Cleanup.{sync}
use cluster_openshift_contro.Cleanup.Requests.{IsSafe}
use cluster_openshift_contro.Cleanup.Rounds.{begin, sync-AllSafe, sync_idle}
use cluster_openshift_contro.Cleanup.Refs.{
  Dropped, without_refs-Dropped, image_pull_secret_name-without_refs,
}
use cluster_openshift_contro.Cleanup.Stages.{IsDue, TokenStage}
use cluster_openshift_contro.Cleanup.Staged.{cleanup_account-staged}

abbrev pull : Secret
pull = record {
  name = "dockercfg-1";
  namespace = "ns";
  annotations = ("openshift.io/token-secret.name", "token-1") ∷ [];
  creation_timestamp = 0;
}

abbrev token : Secret
token = record {
  name = "token-1";
  namespace = "ns";
  annotations = ("kubernetes.io/created-by", "openshift.io/create-dockercfg-secrets") ∷ [];
  creation_timestamp = 0;
}

abbrev pub account : ServiceAccount
account = record {
  name = "default";
  namespace = "ns";
  annotations = [];
  secrets = record { name = "other"; details = "" } ∷ [];
  image_pull_secrets = record { name = "dockercfg-1" } ∷ [];
}

abbrev missing : Fault
missing = record { reason = Reason.not_found; text = "not found" }

-- The state is the list of what was deleted and updated.
abbrev pub kube : Kube (List String)
kube = record {
  list_service_accounts = λ w. ok (account ∷ []);
  get_secret = λ ns name w.
      if name == "dockercfg-1"
      then ok pull
      else if name == "token-1"
      then ok token
      else err missing;
  list_pods = λ ns w. ok [];
  now = λ w. 600_000_000_000;
  is_done = λ w. false;
  delete_secret = λ ns name w. (none, w ++ name ∷ []);
  assign_service_account = λ sa w. w;
  update_service_account = λ sa w. (none, w ++ sa.name ∷ []);
  next = λ w. w;
  get_name = λ base suffix max. "dockercfg-";
}

abbrev start : State (List String)
start = record { world = []; requests = [] }

abbrev pub no_registry : Lister ClusterVersion
no_registry name = ok (record { known_capabilities = []; enabled_capabilities = [] })

abbrev broken : Lister ClusterVersion
broken name = err missing

abbrev pub no_operator : Lister ClusterOperator
no_operator name = err missing

sync_test :
    (sync kube no_registry no_operator start).0 ≡ Flow.return_nil
    × ((sync kube no_registry no_operator start).1.world
        ≡ "token-1" ∷ "dockercfg-1" ∷ "default" ∷ [])
unfolding sync Cleanup.cleanup Cleanup.cleanup_loop cleanup_account Account.cleanup_secret
    Account.remove_secrets image_pull_secret_for_service_account image_pull_secret_in_use
    token_secret_for_image_pull_secret image_registry_is_enabled lookup
sync_test = (refl, refl)

sync-AllSafe_example :
    All
      (IsSafe kube)
      (sync kube no_registry no_operator (begin kube no_registry no_operator [])).1.requests
sync-AllSafe_example = sync-AllSafe kube no_registry no_operator []

broken_unknown : image_registry_is_enabled broken no_operator ≢ ok false
unfolding image_registry_is_enabled
broken_unknown e = ground arith

sync_idle_example :
    (sync kube broken no_operator (begin kube broken no_operator [])).1
    ≡ begin kube broken no_operator []
sync_idle_example = sync_idle kube broken no_operator [] broken_unknown

account-IsDue : IsDue kube account "dockercfg-1" pull (some token) start
unfolding image_pull_secret_for_service_account is_recent image_pull_secret_in_use
    token_secret_for_image_pull_secret lookup
account-IsDue = record {
  named = ground (arith, eq_iff "dockercfg-1" "");
  found = refl;
  old = refl;
  unused = refl;
  token_found = refl;
}

cleanup_account-staged_example :
    TokenStage kube account "dockercfg-1" pull start.world start.world start.requests
      (some token)
      (cleanup_account kube account start).0
      (cleanup_account kube account start).1
cleanup_account-staged_example =
    cleanup_account-staged kube account "dockercfg-1" pull (some token) start account-IsDue

without_refs-Dropped_example :
    Dropped "dockercfg-1" (λ r. r.name) account.secrets (without_refs "dockercfg-1" account).secrets
    × Dropped "dockercfg-1"
        (λ r. r.name)
        account.image_pull_secrets
        (without_refs "dockercfg-1" account).image_pull_secrets
    × ((without_refs "dockercfg-1" account).annotations ≡ account.annotations)
    × ((without_refs "dockercfg-1" account).name ≡ account.name)
    × ((without_refs "dockercfg-1" account).namespace ≡ account.namespace)
without_refs-Dropped_example = without_refs-Dropped "dockercfg-1" account

image_pull_secret_name-without_refs_example :
    image_pull_secret_name kube (without_refs "dockercfg-1" account) ≢ "dockercfg-1"
unfolding lookup
image_pull_secret_name-without_refs_example =
    image_pull_secret_name-without_refs "dockercfg-1" kube account
      (ground (arith, eq_iff "dockercfg-1" "")) refl
