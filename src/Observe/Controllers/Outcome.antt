-- ===== src/Observe/Controllers/Outcome.antt =====
-- The configuration that `observe_controllers` reports, on success and on errors.
use mathlib.Core.List.{Perm}
use cluster_openshift_contro.Common.{
  String, List, [], ◌∷◌, ◌++◌, Option, some, Bool, true, false, ◌≡◌, refl, arith, ◌&&◌, ◌||◌, ◌<>◌,
  not, if◌then◌else◌, any, is_empty, member, map,
}
use cluster_openshift_contro.Common.Fault.{Fault, ok, err}
use cluster_openshift_contro.Common.Sorting.{sort, Ordered, sort-perm, sort-Ordered}
use cluster_openshift_contro.Names.{
  default_role_bindings_controller, service_account_pull_secrets_controller,
  image_puller_role_bindings_controller, build_controller, build_config_change_controller,
  builder_service_account_controller, builder_role_bindings_controller,
  deployment_config_controller, deployer_service_account_controller, deployer_controller,
  deployer_role_bindings_controller, capability_build, capability_deployment_config,
}
use cluster_openshift_contro.Cluster.{ClusterVersion, capability_enabled}
use cluster_openshift_contro.Registry.{image_registry_is_enabled}
use cluster_openshift_contro.Observe.Unstructured.{Unstructured, IsLawful}
use cluster_openshift_contro.Observe.Listers.{Listers}
use cluster_openshift_contro.Observe.Controllers.{
  all_controllers, controllers_path, less, controllers_sort, disable_controller, disable_all,
  collect_disabled, disabled_controller_funcs, disabled_always_controllers,
  disabled_image_registry_controllers, disabled_build_controllers,
  disabled_deployment_config_controllers, observe_controllers, previous_slice,
}
use cluster_openshift_contro.Observe.Controllers.Order.{less-IsOrder, controllers_sort-some}

-- Which controllers are disabled, given whether the image registry, the capability Build and the
-- capability DeploymentConfig are enabled.
abbrev pub is_disabled : Bool → Bool → Bool → String → Bool
is_disabled registry build deployment c =
    member c (default_role_bindings_controller ∷ [])
    || not registry
      && member c
          (service_account_pull_secrets_controller ∷ image_puller_role_bindings_controller ∷ [])
    || not build
      && member c (
          build_controller ∷ build_config_change_controller ∷ builder_service_account_controller
          ∷ builder_role_bindings_controller ∷ [])
    || not deployment
      && member c (
          deployment_config_controller ∷ deployer_service_account_controller ∷ deployer_controller
          ∷ deployer_role_bindings_controller ∷ [])

abbrev pub marked : Bool → Bool → Bool → String → String
marked registry build deployment c = if is_disabled registry build deployment c then "-" <> c else c

abbrev pub disabled_names : Bool → Bool → Bool → List String
disabled_names registry build deployment =
    ((default_role_bindings_controller ∷ [])
      ++ (if registry
          then []
          else service_account_pull_secrets_controller ∷ image_puller_role_bindings_controller
            ∷ []))
    ++ (if build
        then []
        else build_controller ∷ build_config_change_controller ∷ builder_service_account_controller
          ∷ builder_role_bindings_controller ∷ [])
    ++ (if deployment
        then []
        else deployment_config_controller ∷ deployer_service_account_controller
          ∷ deployer_controller ∷ deployer_role_bindings_controller ∷ [])

-- Disabling one by one marks exactly those names and keeps the list otherwise.
disable_all-marked :
    (r b d : Bool)
    → disable_all all_controllers (disabled_names r b d) ≡ map (marked r b d) all_controllers
unfolding disable_all disable_controller
disable_all-marked true true true = refl
disable_all-marked true true false = refl
disable_all-marked true false true = refl
disable_all-marked true false false = refl
disable_all-marked false true true = refl
disable_all-marked false true false = refl
disable_all-marked false false true = refl
disable_all-marked false false false = refl

marked-nonempty : (r b d : Bool) → any is_empty (map (marked r b d) all_controllers) ≡ false
marked-nonempty true true true = refl
marked-nonempty true true false = refl
marked-nonempty true false true = refl
marked-nonempty true false false = refl
marked-nonempty false true true = refl
marked-nonempty false true false = refl
marked-nonempty false false true = refl
marked-nonempty false false false = refl

module _ {Json Config Network : Type 0} (u : Unstructured Json Config) (lawful : IsLawful u)
    (listers : Listers Json Network) where
  open u use {empty, of_texts, nested_string_slice, set_nested_field}

  -- The value that the configuration had, in an otherwise empty configuration.
  abbrev pub previous : Option (List String) → Config
  previous found = (set_nested_field empty controllers_path (of_texts (previous_slice found))).0

  module _ (cv : ClusterVersion) (registry : Bool) where
    abbrev pub build_on : Bool
    build_on = member capability_build cv.enabled_capabilities

    abbrev pub deployment_on : Bool
    deployment_on = member capability_deployment_config cv.enabled_capabilities

    collect_ok :
        listers.cluster_version_lister "version" ≡ ok cv
        → image_registry_is_enabled listers.cluster_version_lister listers.cluster_operator_lister
          ≡ ok registry
        → collect_disabled listers disabled_controller_funcs ([], [])
          ≡ (disabled_names registry build_on deployment_on, [])
    unfolding collect_disabled disabled_always_controllers disabled_image_registry_controllers
        disabled_build_controllers disabled_deployment_config_controllers capability_enabled
    collect_ok hc hr = ground arith

    abbrev pub marked_controllers : List String
    marked_controllers = map (marked registry build_on deployment_on) all_controllers

    sorted_controllers :
        controllers_sort
          (disable_all all_controllers (disabled_names registry build_on deployment_on))
        ≡ some (sort less marked_controllers)
    sorted_controllers =
        rw (disable_all-marked registry build_on deployment_on) (
          controllers_sort-some marked_controllers
            (marked-nonempty registry build_on deployment_on))

    -- If the existing value, the ClusterVersion and the state of the registry can be read, the
    -- observer reports no error and a configuration whose list of controllers holds every
    -- controller once, marked with "-" exactly if it is disabled for the default role bindings, the
    -- registry, or its capability, ordered by name without the mark.
    pub observe_controllers-success :
        {existing : Config} {found : Option (List String)}
        → nested_string_slice existing controllers_path ≡ ok found
        → listers.cluster_version_lister "version" ≡ ok cv
        → image_registry_is_enabled listers.cluster_version_lister listers.cluster_operator_lister
          ≡ ok registry
        → (config : Config) × (names : List String) × (observe_controllers u listers existing
            ≡ some (config, []))
          × (nested_string_slice config controllers_path ≡ ok (some names))
          × Perm names marked_controllers
          × Ordered less names
    unfolding observe_controllers
    observe_controllers-success {existing} {found} he hc hr =
        let observed = (set_nested_field empty controllers_path (of_texts all_controllers)).0 in
        let names = sort less marked_controllers in
        let written = lawful.set_top observed "controllers" (of_texts names) in
        (
          (set_nested_field observed controllers_path (of_texts names)).0,
          names,
          rw (he, collect_ok hc hr, sorted_controllers) (ground (arith, written)),
          lawful.texts_set observed controllers_path names written,
          sort-perm less marked_controllers,
          sort-Ordered less less-IsOrder marked_controllers,
        )

  -- If the ClusterVersion cannot be read, the previous value is kept and each of the three
  -- capability checks reports the error.
  pub observe_controllers-error :
      {existing : Config} {found : Option (List String)} {e : Fault}
      → nested_string_slice existing controllers_path ≡ ok found
      → listers.cluster_version_lister "version" ≡ err e
      → (config : Config) × (observe_controllers u listers existing ≡ some (config, e ∷ e ∷ e ∷ []))
        × (nested_string_slice config controllers_path ≡ ok (some (previous_slice found)))
  unfolding observe_controllers collect_disabled disabled_always_controllers
      disabled_image_registry_controllers disabled_build_controllers
      disabled_deployment_config_controllers image_registry_is_enabled
  observe_controllers-error {existing} {found} {e} he hc = (
    previous found,
    ground arith,
    lawful.texts_set empty controllers_path (previous_slice found)
        (lawful.set_top empty "controllers" (of_texts (previous_slice found))),
  )
