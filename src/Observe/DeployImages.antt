-- ===== src/Observe/DeployImages.antt =====
-- pkg/operator/configobservation/deployimages/observe_deployimages.go: the images of builds and
-- deployers.
pub mod Outcome
pub mod Checks
use cluster_openshift_contro.Common.{
  String, List, [], ◌∷◌, Option, none, some, Bool, true, false, if◌then◌else◌, Assoc, get,
}
use cluster_openshift_contro.Common.Fault.{Fault, Result, ok, err, is_not_found}
use cluster_openshift_contro.Names.{operator_namespace}
use cluster_openshift_contro.Observe.Unstructured.{Unstructured}
use cluster_openshift_contro.Observe.Listers.{Listers}
use cluster_openshift_contro.Observe.Previous.{keep_text}
use cluster_openshift_contro.Observe.Field.{Codec, text, observe_field_made}

abbrev pub builder_image_path : List String
builder_image_path = "build" ∷ "imageTemplateFormat" ∷ "format" ∷ []

abbrev pub deployer_image_path : List String
deployer_image_path = "deployer" ∷ "imageTemplateFormat" ∷ "format" ∷ []

-- The configuration, `none` for a nil map, and the errors. An outer `none` is a panic.
abbrev pub Observed : Type 0 → Type 0
Observed Config = Option (Option Config × List Fault)

-- An error of ObserveField ends the observer without a configuration.
abbrev pub after_field :
    {Config : Type 0}
    → Option (Config × Option Fault)
    → (Config → Observed Config)
    → Observed Config
after_field none next = none
after_field (some (c, none)) next = next c
after_field (some (c, some e)) next = some (none, e ∷ [])

module _ {Json V Config : Type 0} (codec : Codec Json V) (u : Unstructured Json Config) where
  open u use {empty, nested_string}

  abbrev pub observe_images : Assoc String → Observed Config
  observe_images data_map =
      after_field
        (observe_field_made codec u empty (some (text (get "builderImage" data_map)))
          "build.imageTemplateFormat.format" true)
        (λ c.
          after_field
            (observe_field_made codec u c (some (text (get "deployerImage" data_map)))
              "deployer.imageTemplateFormat.format" true)
            (λ c'. some (some c', [])))

  abbrev pub from_config_map : Config → Result (Assoc String) → Observed Config
  from_config_map previous (err e) =
      if is_not_found e then some (some empty, []) else some (some previous, e ∷ [])
  from_config_map previous (ok data_map) = observe_images data_map

  abbrev pub keep_second : Result (Option String) → Config × Option Fault → Config × Option Fault
  keep_second deployer (c, none) = keep_text u c deployer_image_path deployer
  keep_second deployer (c, some e) = (c, some e)

  abbrev pub after_both : Result (Assoc String) → Config × Option Fault → Observed Config
  after_both config_map (previous, none) = from_config_map previous config_map
  after_both config_map (previous, some e) = some (some previous, e ∷ [])

  unfoldable pub observe_controller_manager_images_config :
      {K Network : Type 0} → Listers K Network → Config → Observed Config
  unfolding keep_text observe_field_made
  observe_controller_manager_images_config listers existing =
      after_both
        (listers.config_map_lister operator_namespace "openshift-controller-manager-images")
        (keep_second (nested_string existing deployer_image_path)
          (keep_text u empty builder_image_path (nested_string existing builder_image_path)))
