-- ===== src/Observe/DeployImages/Checks.antt =====
-- The theorem on the observed images at a concrete input.
use cluster_openshift_contro.Common.{String, [], ◌∷◌, some, true, false, ◌≡◌, ◌⊎◌, refl, Assoc, get}
use cluster_openshift_contro.Common.Fault.{Fault, ok, err, is_not_found}
use cluster_openshift_contro.Observe.Unstructured.Flat.{FlatConfig, text, flat, flat-IsLawful}
use cluster_openshift_contro.Observe.Previous.{nonempty}
use cluster_openshift_contro.Observe.Sample.{listers, codec}
use cluster_openshift_contro.Observe.DeployImages.{
  Observed, builder_image_path, deployer_image_path, observe_controller_manager_images_config,
}
use cluster_openshift_contro.Observe.DeployImages.Outcome.{observe_controller_manager_images_lem}

abbrev existing : FlatConfig
existing = (builder_image_path, text "builder:0") ∷ (deployer_image_path, text "deployer:0") ∷ []

abbrev observed : Observed FlatConfig
observed = observe_controller_manager_images_config codec flat listers existing

observe_controller_manager_images_lem_example :
    ((data_map : Assoc String) × (out : FlatConfig) × (listers.config_map_lister
          "openshift-controller-manager-operator" "openshift-controller-manager-images"
        ≡ ok data_map)
      × (observed ≡ some (some out, []))
      × (flat.nested_string out builder_image_path ≡ ok (nonempty (get "builderImage" data_map)))
      × (flat.nested_string out deployer_image_path ≡ ok (nonempty (get "deployerImage" data_map))))
    ⊎ ((e : Fault) × (listers.config_map_lister "openshift-controller-manager-operator"
            "openshift-controller-manager-images"
          ≡ err e)
        × ((is_not_found e ≡ true) × (observed ≡ some (some flat.empty, []))
            ⊎ (is_not_found e ≡ false)
              × (out : FlatConfig) × (observed ≡ some (some out, e ∷ []))
              × (flat.nested_string out builder_image_path ≡ ok (nonempty "builder:0"))
              × (flat.nested_string out deployer_image_path ≡ ok (nonempty "deployer:0"))))
observe_controller_manager_images_lem_example =
    observe_controller_manager_images_lem codec flat flat-IsLawful listers existing
      (some "builder:0") (some "deployer:0") refl refl
