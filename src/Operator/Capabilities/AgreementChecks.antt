-- ===== src/Operator/Capabilities/AgreementChecks.antt =====
-- The two lists of controllers in a cluster without the image registry.
use mathlib.Core.List.Perm
use cluster_openshift_contro.Common.{
  String, List, [], ◌∷◌, none, some, true, false, ◌≡◌, ◌⊎◌, refl, member,
}
use cluster_openshift_contro.Common.Fault.{ok}
use cluster_openshift_contro.Cluster.{ClusterVersion}
use cluster_openshift_contro.Registry.{image_registry_is_enabled}
use cluster_openshift_contro.Observe.Unstructured.Flat.{FlatConfig, flat, flat-IsLawful}
use cluster_openshift_contro.Observe.Controllers.{controllers_path, observe_controllers}
use cluster_openshift_contro.Observe.Controllers.Checks.{listers, no_lister}
use cluster_openshift_contro.Operator.Capabilities.{controller_capabilities, disable_controllers}
use cluster_openshift_contro.Operator.Capabilities.Agreement.{disable_controllers-observed}

abbrev disabled_puller : String
disabled_puller = "-openshift.io/image-puller-rolebindings"

abbrev no_registry : ClusterVersion
no_registry = record {
  known_capabilities = "Build" ∷ "ImageRegistry" ∷ [];
  enabled_capabilities = "Build" ∷ [];
}

registry_off : image_registry_is_enabled (λ name. ok no_registry) no_lister ≡ ok false
unfolding image_registry_is_enabled
registry_off = refl

puller_listed :
    member disabled_puller (disable_controllers controller_capabilities no_registry) ≡ true
unfolding disable_controllers
puller_listed = refl

disable_controllers-observed_example :
    (config : FlatConfig) × (names : List String) × (observe_controllers flat
        (listers (ok no_registry))
        []
      ≡ some (config, []))
    × (flat.nested_string_slice config controllers_path ≡ ok (some names))
    × ((disabled_puller ≡ "*") ⊎ (member disabled_puller names ≡ true))
disable_controllers-observed_example =
    disable_controllers-observed flat flat-IsLawful (listers (ok no_registry)) no_registry false
      {existing = []} {found = none} controller_capabilities disabled_puller Perm.rfl refl refl
      registry_off puller_listed
