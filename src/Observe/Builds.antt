-- ===== src/Observe/Builds.antt =====
-- pkg/operator/configobservation/builds/observe_builds.go. `V` are the values that are encoded as
-- JSON, `list_value` a slice of them as a value.
pub mod Outcome
pub mod Checks
use cluster_openshift_contro.Common.{
  String, List, [], ◌∷◌, Option, none, some, Bool, true, false, not, if◌then◌else◌, ◌<>◌, Assoc,
}
use cluster_openshift_contro.Common.Fault.{Fault, Result, ok, err, is_not_found, describe}
use cluster_openshift_contro.Observe.Unstructured.{Unstructured}
use cluster_openshift_contro.Observe.Listers.{Listers, BuildConfig}
use cluster_openshift_contro.Observe.Previous.{keep_text}
use cluster_openshift_contro.Observe.Field.{
  Value, Codec, bool_pointer, string_map, other_type, is_empty_list, observe_field_made,
}

abbrev pub git_http_proxy_path : List String
git_http_proxy_path = "build" ∷ "buildDefaults" ∷ "gitHTTPProxy" ∷ []

abbrev pub git_https_proxy_path : List String
git_https_proxy_path = "build" ∷ "buildDefaults" ∷ "gitHTTPSProxy" ∷ []

abbrev pub git_no_proxy_path : List String
git_no_proxy_path = "build" ∷ "buildDefaults" ∷ "gitNoProxy" ∷ []

abbrev pub is_set {ℓ} : {A : Type ℓ} → Option A → Bool
is_set none = false
is_set (some a) = true

-- The configuration, `none` for a nil map, and the errors; an outer `none` is a panic.
abbrev pub Observed : Type 0 → Type 0
Observed Config = Option (Option Config × List Fault)

-- An error of ObserveField ends the observer without a configuration.
abbrev pub after_field :
    {Config : Type 0}
    → String
    → Option (Config × Option Fault)
    → (Config → Observed Config)
    → Observed Config
after_field name none next = none
after_field name (some (c, none)) next = next c
after_field name (some (c, some e)) next =
    some (none, describe ("failed to observe " <> name <> ": ") e ∷ [])

module _ {Json V Config : Type 0} (codec : Codec Json V) (list_value : List V → V)
    (u : Unstructured Json Config) where
  open u use {empty, nested_string}

  -- if present { if err = ObserveField(observedConfig, val, name, true); err != nil { ... } }
  unfoldable pub field_if :
      Bool → Value Json V → String → Config → (Config → Observed Config) → Observed Config
  unfolding observe_field_made
  field_if present v name c next =
      if present
      then after_field name (observe_field_made codec u c (some v) name true) next
      else next c

  abbrev pub list_field : List V → String → Config → (Config → Observed Config) → Observed Config
  list_field l name c next =
      field_if (not (is_empty_list l)) (other_type (list_value l)) name c next

  -- An absent pointer is not passed on.
  abbrev pub pointer_field :
      Option Bool → String → Config → (Config → Observed Config) → Observed Config
  pointer_field b name c next = field_if (is_set b) (bool_pointer b) name c next

  abbrev pub observe_overrides : BuildConfig V → Config → Observed Config
  observe_overrides build c =
      list_field build.override_image_labels "build.buildOverrides.imageLabels" c (λ c1.
        field_if (not (is_empty_list build.override_node_selector))
          (string_map build.override_node_selector) "build.buildOverrides.nodeSelector" c1
          (λ c2. list_field build.override_tolerations "build.buildOverrides.tolerations" c2 (λ c3.
            pointer_field build.override_force_pull "build.buildOverrides.forcePull" c3
              (λ c4. some (some c4, [])))))

  unfoldable pub observe_build : BuildConfig V → Observed Config
  unfolding field_if
  observe_build build = list_field build.default_env "build.buildDefaults.env" empty (λ c1.
      list_field build.default_image_labels "build.buildDefaults.imageLabels" c1 (λ c2.
        field_if true (other_type build.default_resources) "build.buildDefaults.resources" c2
          (observe_overrides build)))

  abbrev pub from_build : Config → Result (BuildConfig V) → Observed Config
  from_build previous (err e) =
      if is_not_found e then some (some empty, []) else some (some previous, e ∷ [])
  from_build previous (ok build) = observe_build build

  abbrev pub keep_next :
      List String → Result (Option String) → Config × Option Fault → Config × Option Fault
  keep_next path existing (c, none) = keep_text u c path existing
  keep_next path existing (c, some e) = (c, some e)

  abbrev pub after_kept : Result (BuildConfig V) → Config × Option Fault → Observed Config
  after_kept build (previous, none) = from_build previous build
  after_kept build (previous, some e) = some (some previous, e ∷ [])

  abbrev pub kept : Config → Config × Option Fault
  kept existing = keep_next git_no_proxy_path (nested_string existing git_no_proxy_path) (
      keep_next git_https_proxy_path (nested_string existing git_https_proxy_path)
        (keep_text u empty git_http_proxy_path (nested_string existing git_http_proxy_path)))

  unfoldable pub observe_build_controller_config :
      {Network : Type 0} → Listers V Network → Config → Observed Config
  unfolding keep_text observe_build
  observe_build_controller_config listers existing =
      after_kept (listers.build_config_lister "cluster") (kept existing)
