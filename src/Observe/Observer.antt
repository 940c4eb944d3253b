-- ===== src/Observe/Observer.antt =====
-- pkg/operator/configobservation/configobservercontroller/observe_config_controller.go: the observers
-- that the configuration observer runs, and the caches for which it waits. The observers of feature
-- gates and of the TLS profile are library-go's.
pub mod Writes
pub mod Owners
pub mod Fields
pub mod BuildFields
pub mod Entries
pub mod Merging
pub mod Checks
use cluster_openshift_contro.Common.{
  String, List, [], ◌∷◌, ◌++◌, Option, none, some, Bool, true, false, if◌then◌else◌,
}
use cluster_openshift_contro.Common.Fault.{Fault, Result}
use cluster_openshift_contro.Cluster.{Lister}
use cluster_openshift_contro.Observe.Unstructured.{Unstructured}
use cluster_openshift_contro.Observe.Listers.{Listers}
use cluster_openshift_contro.Observe.Field.{Codec}
use cluster_openshift_contro.Observe.Images.{
  observe_internal_registry_hostname, observe_external_registry_hostnames,
}
use cluster_openshift_contro.Observe.Network.{observe_external_ip_auto_assign_cidrs}
use cluster_openshift_contro.Observe.DeployImages.{observe_controller_manager_images_config}
use cluster_openshift_contro.Observe.Controllers.{observe_controllers}
use cluster_openshift_contro.Observe.Builds.{observe_build_controller_config}

-- configobserver.ObserveConfigFunc, its listers given: from the existing configuration the observed
-- one, `none` for a nil map, and the errors. An outer `none` is a panic.
abbrev pub ObserveConfigFunc : Type 0 → Type 0
ObserveConfigFunc Config = Config → Option (Option Config × List Fault)

-- The informers whose caches are waited for.
pub data Informer : Type 0 where
  images_informer networks_informer api_servers_informer cluster_versions_informer
        cluster_operators_informer config_maps_informer openshift_controller_managers_informer
        builds_informer :
      Informer

unfoldable pub informers_synced : Bool → List Informer
informers_synced build_enabled =
    (images_informer ∷ networks_informer ∷ api_servers_informer ∷ cluster_versions_informer
      ∷ cluster_operators_informer ∷ config_maps_informer ∷ openshift_controller_managers_informer
      ∷ [])
    ++ (if build_enabled then builds_informer ∷ [] else [])

-- NewObserveFeatureFlagsFunc, from the known features and the path of the result
abbrev pub NewFeatureFlags : Type 0 → Type 0
NewFeatureFlags Config = List String → List String → ObserveConfigFunc Config

abbrev pub feature_gates_path : List String
feature_gates_path = "featureGates" ∷ []

abbrev pub observed {ℓ} :
    {Config : Type ℓ} → Config × List Fault → Option (Option Config × List Fault)
observed (c, errors) = some (some c, errors)

abbrev pub observed_or_panic {ℓ} :
    {Config : Type ℓ} → Option (Config × List Fault) → Option (Option Config × List Fault)
observed_or_panic none = none
observed_or_panic (some r) = observed r

module _ {Json V Network Config : Type 0} (codec : Codec Json V) (list_value : List V → V)
    (u : Unstructured Json Config) (cidrs : Lister Network → Result (List String))
    (new_feature_flags : NewFeatureFlags Config) (tls_profile : ObserveConfigFunc Config)
    (listers : Listers V Network) where
  -- The build configuration is observed only if builds are enabled.
  unfoldable pub observer_funcs : Bool → List (ObserveConfigFunc Config)
  observer_funcs build_enabled =
      ((λ existing. observed (observe_internal_registry_hostname u listers existing))
        ∷ (λ existing. observed (observe_external_registry_hostnames u listers existing))
        ∷ (λ existing. observed (observe_external_ip_auto_assign_cidrs u cidrs listers existing))
        ∷ (λ existing. observe_controller_manager_images_config codec u listers existing)
        ∷ (λ existing. observed_or_panic (observe_controllers u listers existing))
        ∷ new_feature_flags ("BuildCSIVolumes" ∷ []) feature_gates_path
        ∷ tls_profile
        ∷ [])
      ++ (if build_enabled
          then (λ existing. observe_build_controller_config codec list_value u listers existing)
            ∷ []
          else [])
