-- ===== src/Observe/Controllers.antt =====
-- pkg/operator/configobservation/controllers: which controllers of the controller manager run. A
-- controller is disabled by the prefix "-".
pub mod Disabling
pub mod Order
pub mod ByName
pub mod Outcome
pub mod Checks
use Prim.Native.Char.{code}
use cluster_openshift_contro.Common.{
  String, List, [], ◌∷◌, ◌++◌, Option, none, some, Bool, true, false, ◌==◌, ◌&&◌, ◌||◌, ◌<>◌,
  if◌then◌else◌, any, is_empty, less_text, length, ltb, nat_eq,
}
use cluster_openshift_contro.Common.Fault.{Fault, Result, ok, err, wrap, ◌>>=◌}
use cluster_openshift_contro.Common.Sorting.{sort}
use cluster_openshift_contro.Names.{
  service_account_controller, default_role_bindings_controller,
  service_account_pull_secrets_controller, origin_namespace_controller, build_controller,
  build_config_change_controller, builder_service_account_controller,
  builder_role_bindings_controller, deployer_controller, deployer_service_account_controller,
  deployer_role_bindings_controller, deployment_config_controller, image_trigger_controller,
  image_import_controller, image_signature_import_controller, image_puller_role_bindings_controller,
  template_instance_controller, template_instance_finalizer_controller, unidling_controller,
  ingress_ip_controller, ingress_to_route_controller, capability_build,
  capability_deployment_config,
}
use cluster_openshift_contro.Cluster.{capability_enabled}
use cluster_openshift_contro.Registry.{image_registry_is_enabled}
use cluster_openshift_contro.Observe.Unstructured.{Unstructured}
use cluster_openshift_contro.Observe.Listers.{Listers}

abbrev pub all_controllers : List String
all_controllers =
    service_account_controller ∷ default_role_bindings_controller
    ∷ service_account_pull_secrets_controller ∷ origin_namespace_controller ∷ build_controller
    ∷ build_config_change_controller ∷ builder_service_account_controller
    ∷ builder_role_bindings_controller ∷ deployer_controller ∷ deployer_service_account_controller
    ∷ deployer_role_bindings_controller ∷ deployment_config_controller ∷ image_trigger_controller
    ∷ image_import_controller ∷ image_signature_import_controller
    ∷ image_puller_role_bindings_controller ∷ template_instance_controller
    ∷ template_instance_finalizer_controller ∷ unidling_controller ∷ ingress_ip_controller
    ∷ ingress_to_route_controller ∷ []

-- The first element that is the controller or its disabled form decides.
unfoldable pub disable_controller : List String → String → List String
disable_controller [] controller = ("-" <> controller) ∷ []
disable_controller (c ∷ cs) controller =
    if c == controller
    then ("-" <> controller) ∷ cs
    else if c == "-" <> controller
    then c ∷ cs
    else c ∷ disable_controller cs controller

-- for _, name := range disabledControllers
unfoldable pub disable_all : List String → List String → List String
disable_all controllers [] = controllers
disable_all controllers (name ∷ names) = disable_all (disable_controller controllers name) names

-- `x[i]` without its prefix '-', as `Less` compares it
unfoldable pub without_dash : String → String
without_dash String.[] = ""
without_dash (String.◌∷◌ c s) = if nat_eq (code c) b'-' then s else String.◌∷◌ c s

unfoldable pub less : String → String → Bool
unfolding without_dash less_text
less a b = less_text (without_dash a) (without_dash b)

-- `Less` reads the first byte of both: it panics at an empty name. A sort of two or more elements
-- compares each of them.
unfoldable pub sort_panics : List String → Bool
sort_panics controllers = ltb 1 (length controllers) && any is_empty controllers

-- `none` is a panic.
unfoldable pub controllers_sort : List String → Option (List String)
unfolding sort_panics less sort
controllers_sort controllers =
    if sort_panics controllers then none else some (sort less controllers)

abbrev pub DisabledControllersFunc : Type 0 → Type 0 → Type 0
DisabledControllersFunc Json Network = Listers Json Network → Result (List String)

-- One round of the loop over the functions: an error is kept and the loop goes on.
abbrev pub collect_one : Result (List String) → List String × List Fault → List String × List Fault
collect_one (ok disabled) (names, errs) = (names ++ disabled, errs)
collect_one (err e) (names, errs) = (names, errs ++ e ∷ [])

abbrev pub controllers_path : List String
controllers_path = "controllers" ∷ []

-- A slice that is absent is the nil slice, and is written back as an empty one.
abbrev pub previous_slice : Option (List String) → List String
previous_slice none = []
previous_slice (some l) = l

module _ {Json Network : Type 0} where
  unfoldable pub disabled_always_controllers : DisabledControllersFunc Json Network
  disabled_always_controllers _ = ok (default_role_bindings_controller ∷ [])

  unfoldable pub disabled_image_registry_controllers : DisabledControllersFunc Json Network
  disabled_image_registry_controllers listers = do
    enabled ←
        image_registry_is_enabled listers.cluster_version_lister listers.cluster_operator_lister
    if enabled
        then ok []
        else ok
            (service_account_pull_secrets_controller ∷ image_puller_role_bindings_controller ∷ [])

  unfoldable pub disabled_build_controllers : DisabledControllersFunc Json Network
  unfolding capability_enabled
  disabled_build_controllers listers = do
    cv ← listers.cluster_version_lister "version"
    if capability_enabled capability_build cv
        then ok []
        else ok (
            build_controller ∷ build_config_change_controller ∷ builder_service_account_controller
            ∷ builder_role_bindings_controller ∷ [])

  unfoldable pub disabled_deployment_config_controllers : DisabledControllersFunc Json Network
  unfolding capability_enabled
  disabled_deployment_config_controllers listers = do
    cv ← listers.cluster_version_lister "version"
    if capability_enabled capability_deployment_config cv
        then ok []
        else ok (
            deployment_config_controller ∷ deployer_service_account_controller ∷ deployer_controller
            ∷ deployer_role_bindings_controller ∷ [])

  abbrev pub disabled_controller_funcs : List (DisabledControllersFunc Json Network)
  disabled_controller_funcs =
      disabled_always_controllers ∷ disabled_image_registry_controllers ∷ disabled_build_controllers
      ∷ disabled_deployment_config_controllers ∷ []

  unfoldable pub collect_disabled :
      Listers Json Network
      → List (DisabledControllersFunc Json Network)
      → List String × List Fault
      → List String × List Fault
  collect_disabled listers [] acc = acc
  collect_disabled listers (f ∷ fs) acc = collect_disabled listers fs (collect_one (f listers) acc)

module _ {Json Config : Type 0} (u : Unstructured Json Config) where
  open u use {empty, of_texts, nested_string_slice, set_nested_field}

  abbrev pub set_or_previous : Config → Config × Option Fault → Config × List Fault
  set_or_previous previous (c, none) = (c, [])
  set_or_previous previous (c, some e) = (previous, wrap "error setting controllers value: " e ∷ [])

  abbrev pub finish : Config → Config → Option (List String) → Option (Config × List Fault)
  finish previous observed none = none
  finish previous observed (some controllers) =
      some (
        set_or_previous previous
          (set_nested_field observed controllers_path (of_texts controllers)))

  abbrev pub mark_disabled :
      Config → Config → List String × List Fault → Option (Config × List Fault)
  mark_disabled previous observed (disabled, []) =
      finish previous observed (controllers_sort (disable_all all_controllers disabled))
  mark_disabled previous observed (disabled, e ∷ errs) = some (previous, e ∷ errs)

  abbrev pub observe_previous :
      {V Network : Type 0}
      → Listers V Network
      → Result (Option (List String))
      → Option (Config × List Fault)
  observe_previous listers (err e) =
      some (empty, wrap "unable to parse existing controllers value: " e ∷ [])
  observe_previous listers (ok found) =
      mark_disabled (set_nested_field empty controllers_path (of_texts (previous_slice found))).0
        (set_nested_field empty controllers_path (of_texts all_controllers)).0
        (collect_disabled listers disabled_controller_funcs ([], []))

  -- The observed configuration and the errors; `none` is a panic of the sort.
  unfoldable pub observe_controllers :
      {V Network : Type 0} → Listers V Network → Config → Option (Config × List Fault)
  observe_controllers listers existing =
      observe_previous listers (nested_string_slice existing controllers_path)
