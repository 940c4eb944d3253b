-- ===== src/Observe/Controllers/Checks.antt =====
-- Runs of the controllers' observer, and its theorems at concrete inputs.
use mathlib.Core.List.{Perm}
use mathlib.Core.List.Perm
use cluster_openshift_contro.Common.{
  Bool, map, less_text, String, List, [], ◌∷◌, none, some, true, false, ◌≡◌, refl,
}
use cluster_openshift_contro.Common.Fault.{Fault, Reason, Result, ok, err}
use cluster_openshift_contro.Common.Sorting.{Ordered}
use cluster_openshift_contro.Cluster.{ClusterVersion, Lister}
use cluster_openshift_contro.Registry.{image_registry_is_enabled}
use cluster_openshift_contro.Observe.Unstructured.Flat.{Entry, FlatConfig, flat, flat-IsLawful}
use cluster_openshift_contro.Observe.Listers.{Listers}
use cluster_openshift_contro.Observe.Controllers.{
  controllers_sort, controllers_path, observe_controllers, less,
}
use cluster_openshift_contro.Observe.Controllers.ByName.{InOrder, write, controllers_sort-write}
use cluster_openshift_contro.Observe.Controllers.Outcome.{
  marked_controllers, observe_controllers-success, observe_controllers-error,
}

controllers_sort_test :
    controllers_sort ("*" ∷ "-Max" ∷ "Zea" ∷ "Ada" ∷ []) ≡ some ("*" ∷ "Ada" ∷ "-Max" ∷ "Zea" ∷ [])
unfolding controllers_sort
controllers_sort_test = refl

controllers_sort_panic : controllers_sort ("a" ∷ "" ∷ []) ≡ none
unfolding controllers_sort
controllers_sort_panic = refl

abbrev missing : Fault
missing = record { reason = Reason.not_found; text = "not found" }

abbrev pub no_lister {ℓ} : {A : Type ℓ} → Lister A
no_lister name = err missing

abbrev version : ClusterVersion
version = record { known_capabilities = []; enabled_capabilities = "Build" ∷ [] }

abbrev pub listers : Result ClusterVersion → Listers Entry (Unit {0})
listers cv = record {
  image_config_lister = no_lister;
  build_config_lister = no_lister;
  config_map_lister = λ ns. no_lister;
  network_lister = no_lister;
  cluster_version_lister = λ name. cv;
  cluster_operator_lister = no_lister;
}

abbrev ada_max : List (Bool × String)
ada_max = (false, "Ada") ∷ (true, "Max") ∷ []

ada_max-InOrder : InOrder ada_max
unfolding less_text
ada_max-InOrder = ((refl, tt), (tt, tt))

controllers_sort-write_example : controllers_sort ("-Max" ∷ "Ada" ∷ []) ≡ some (map write ada_max)
controllers_sort-write_example =
    controllers_sort-write ("-Max" ∷ "Ada" ∷ []) ada_max refl ada_max-InOrder
      (Perm.swap "-Max" "Ada" [])

registry_off : image_registry_is_enabled (λ name. ok version) no_lister ≡ ok false
unfolding image_registry_is_enabled
registry_off = refl

observe_controllers-success_example :
    (config : FlatConfig) × (names : List String) × (observe_controllers flat
        (listers (ok version))
        []
      ≡ some (config, []))
    × (flat.nested_string_slice config controllers_path ≡ ok (some names))
    × Perm names (marked_controllers flat flat-IsLawful (listers (ok version)) version false)
    × Ordered less names
observe_controllers-success_example =
    observe_controllers-success flat flat-IsLawful (listers (ok version)) version false
      {existing = []} {found = none} refl refl registry_off

observe_controllers-error_example :
    (config : FlatConfig) × (observe_controllers flat
        (listers (err missing))
        ((controllers_path, Entry.texts ("a" ∷ [])) ∷ [])
      ≡ some (config, missing ∷ missing ∷ missing ∷ []))
    × (flat.nested_string_slice config controllers_path ≡ ok (some ("a" ∷ [])))
observe_controllers-error_example =
    observe_controllers-error flat flat-IsLawful (listers (err missing))
      {existing = (controllers_path, Entry.texts ("a" ∷ [])) ∷ []} {found = some ("a" ∷ [])} refl
      refl
