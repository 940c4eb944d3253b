-- ===== src/Registry/Checks.antt =====
-- The state of the registry at a concrete input.
use cluster_openshift_contro.Common.{[], ◌∷◌, ◌≡◌, ◌↔◌, ◌⊎◌, false, member}
use cluster_openshift_contro.Common.Fault.{ok}
use cluster_openshift_contro.Names.{capability_image_registry}
use cluster_openshift_contro.Cluster.{Lister, ClusterVersion, ClusterOperator}
use cluster_openshift_contro.Registry.{image_registry_is_enabled}
use cluster_openshift_contro.Registry.State.{IsRemoved, image_registry_is_enabled-false}

abbrev versions : Lister ClusterVersion
versions name = ok (record { known_capabilities = []; enabled_capabilities = "ImageRegistry" ∷ [] })

abbrev operators : Lister ClusterOperator
operators name = ok (record { conditions = record { kind = "Available"; reason = "Removed" } ∷ [] })

image_registry_is_enabled-false_example :
    (image_registry_is_enabled versions operators ≡ ok false) ↔ (
      (cv : ClusterVersion) × (versions "version" ≡ ok cv)
      × ((member capability_image_registry cv.enabled_capabilities ≡ false)
          ⊎ IsRemoved (operators "image-registry")))
image_registry_is_enabled-false_example = image_registry_is_enabled-false versions operators
