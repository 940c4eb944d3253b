-- ===== src/Operator/Capabilities.antt =====
-- pkg/operator/sync_openshiftcontrollermanager_v311_00.go: `controllerCapabilities` and
-- `disableControllers`.
pub mod Order
pub mod Content
pub mod Marks
pub mod Agreement
pub mod AgreementChecks
pub mod Checks
use cluster_openshift_contro.Common.{
  String, List, [], ◌∷◌, ◌++◌, Bool, true, false, ◌&&◌, ◌<>◌, not, if◌then◌else◌, member, less_text,
}
use cluster_openshift_contro.Common.Sorting.{sort}
use cluster_openshift_contro.Names.{
  build_controller, build_config_change_controller, builder_service_account_controller,
  builder_role_bindings_controller, deployment_config_controller,
  deployer_service_account_controller, deployer_controller, deployer_role_bindings_controller,
  service_account_pull_secrets_controller, image_puller_role_bindings_controller, capability_build,
  capability_deployment_config, capability_image_registry,
}
use cluster_openshift_contro.Cluster.{ClusterVersion}

abbrev pub controller_capabilities : List (String × String)
controller_capabilities =
    (build_controller, capability_build)
    ∷ (build_config_change_controller, capability_build)
    ∷ (builder_service_account_controller, capability_build)
    ∷ (builder_role_bindings_controller, capability_build)
    ∷ (deployment_config_controller, capability_deployment_config)
    ∷ (deployer_service_account_controller, capability_deployment_config)
    ∷ (deployer_controller, capability_deployment_config)
    ∷ (deployer_role_bindings_controller, capability_deployment_config)
    ∷ (service_account_pull_secrets_controller, capability_image_registry)
    ∷ (image_puller_role_bindings_controller, capability_image_registry)
    ∷ []

-- knownCaps.Has(cap) && !capsEnabled.Has(cap)
unfoldable pub capability_off : ClusterVersion → String → Bool
capability_off cv cap = member cap cv.known_capabilities && not (member cap cv.enabled_capabilities)

-- The loop over the map: `entries` is the map in the order in which the run visits it.
unfoldable pub disabled_entries : ClusterVersion → List (String × String) → List String
unfolding capability_off
disabled_entries cv [] = []
disabled_entries cv ((controller, cap) ∷ entries) =
    let rest = disabled_entries cv entries in
    if capability_off cv cap then ("-" <> controller) ∷ rest else rest

unfoldable pub disable_controllers : List (String × String) → ClusterVersion → List String
unfolding disabled_entries sort less_text
disable_controllers entries cv =
    sort less_text ("*" ∷ "-openshift.io/default-rolebindings" ∷ disabled_entries cv entries)
