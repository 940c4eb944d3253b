-- ===== src/Observe/Field/Checks.antt =====
-- Runs of `ObserveField`, and its theorems at concrete inputs.
use cluster_openshift_contro.Common.{String, [], ◌∷◌, none, some, true, false, ◌≡◌, refl}
use cluster_openshift_contro.Common.Fault.{ok}
use cluster_openshift_contro.Observe.Unstructured.Flat.{Entry, text, flat}
use cluster_openshift_contro.Observe.Sample.{codec, full}
use cluster_openshift_contro.Observe.Field.{
  Value, other_type, convert_json, split_dots, observe_field,
}
use cluster_openshift_contro.Observe.Field.Outcome.{
  reported, of_other, observe_field_lem, observe_field-none, nil_map, other_written,
}

split_dots_run : split_dots "build.buildDefaults.env" ≡ "build" ∷ "buildDefaults" ∷ "env" ∷ []
unfolding split_dots
split_dots_run = refl

abbrev resources : Value Entry String
resources = other_type "resources"

resources_converted : convert_json codec (some "resources") ≡ ok (some (text ""))
unfolding convert_json
resources_converted = refl

observe_field_lem_example :
    observe_field codec full (some []) (some resources) "build.resources" false
    ≡ some (
      some (full.set_nested_field [] (split_dots "build.resources") (text "")).0,
      reported resources (full.set_nested_field [] (split_dots "build.resources") (text "")).1,
    )
observe_field_lem_example =
    observe_field_lem codec full [] resources (text "") "build.resources"
      (of_other "resources" (text "") resources_converted)

-- The resources are written, so that a nil map panics.
resources_panic : observe_field codec flat none (some resources) "build.resources" true ≡ none
resources_panic =
    (observe_field-none codec flat none resources "build.resources" true).1
      (nil_map resources refl (other_written "resources" (text "") resources_converted))
