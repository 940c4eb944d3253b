-- ===== src/Observe/Images.antt =====
-- pkg/operator/configobservation/images/observe_images.go: the names of the image registry.
pub mod Outcome
use cluster_openshift_contro.Common.{
  String, List, [], ◌∷◌, Option, none, some, Bool, true, false, if◌then◌else◌,
}
use cluster_openshift_contro.Common.Fault.{Fault, Result, ok, err, is_not_found}
use cluster_openshift_contro.Observe.Unstructured.{Unstructured}
use cluster_openshift_contro.Observe.Listers.{Listers, ImageConfig}
use cluster_openshift_contro.Observe.Previous.{
  write_text, write_texts, keep_text, keep_texts, or_previous,
}

abbrev pub internal_registry_hostname_path : List String
internal_registry_hostname_path = "dockerPullSecret" ∷ "internalRegistryHostname" ∷ []

abbrev pub registry_urls_path : List String
registry_urls_path = "dockerPullSecret" ∷ "registryURLs" ∷ []

module _ {Json Config : Type 0} (u : Unstructured Json Config) where
  open u use {empty, nested_string, nested_string_slice}

  -- Without an image configuration nothing is observed; another error keeps what was there.
  abbrev pub from_image :
      (ImageConfig → Config × Option Fault) → Config → Result ImageConfig → Config × List Fault
  from_image write previous (err e) = if is_not_found e then (empty, []) else (previous, e ∷ [])
  from_image write previous (ok image) = or_previous u previous (write image)

  abbrev pub after_previous :
      (ImageConfig → Config × Option Fault)
      → Result ImageConfig
      → Config × Option Fault
      → Config × List Fault
  after_previous write image (previous, none) = from_image write previous image
  after_previous write image (previous, some e) = (previous, e ∷ [])

  module _ {V Network : Type 0} (listers : Listers V Network) (existing : Config) where
    unfoldable pub observe_internal_registry_hostname : Config × List Fault
    unfolding keep_text write_text
    observe_internal_registry_hostname =
        after_previous
          (λ image.
            write_text u empty internal_registry_hostname_path image.internal_registry_hostname)
          (listers.image_config_lister "cluster")
          (keep_text u empty internal_registry_hostname_path
            (nested_string existing internal_registry_hostname_path))

    unfoldable pub observe_external_registry_hostnames : Config × List Fault
    unfolding keep_texts write_texts
    observe_external_registry_hostnames =
        after_previous
          (λ image. write_texts u empty registry_urls_path image.external_registry_hostnames)
          (listers.image_config_lister "cluster")
          (keep_texts u empty registry_urls_path (nested_string_slice existing registry_urls_path))
