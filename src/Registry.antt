-- ===== src/Registry.antt =====
-- pkg/operator/internalimageregistry/management_state.go: is the internal image registry enabled?
pub mod State
pub mod Checks
use cluster_openshift_contro.Common.{String, List, [], ◌∷◌, Bool, true, false, ◌==◌, if◌then◌else◌}
use cluster_openshift_contro.Common.Fault.{Fault, Result, ok, err, is_not_found, ◌>>=◌}
use cluster_openshift_contro.Names.{capability_image_registry}
use cluster_openshift_contro.Cluster.{
  Lister, ClusterVersion, ClusterOperator, StatusCondition, capability_enabled,
}

-- Only the first condition is looked at.
unfoldable pub not_removed : List StatusCondition → Bool
not_removed [] = true
not_removed (c ∷ cs) = if c.reason == "Removed" then false else true

unfoldable pub registry_state : Result ClusterOperator → Bool
unfolding not_removed
registry_state (ok co) = not_removed co.conditions
registry_state (err e) = if is_not_found e then true else true

unfoldable pub image_registry_is_enabled :
    Lister ClusterVersion → Lister ClusterOperator → Result Bool
unfolding registry_state capability_enabled
image_registry_is_enabled cluster_version_lister cluster_operator_lister = do
  cv ← cluster_version_lister "version"
  if capability_enabled capability_image_registry cv
      then ok (registry_state (cluster_operator_lister "image-registry"))
      else ok false
