-- ===== src/Observe/Observer/Fields.antt =====
-- The observers that write by ObserveField keep to their paths.
use mathlib.Core.List.{Mem, mem-cons_self, mem-cons_of_mem}
use cluster_openshift_contro.Common.{
  String, List, [], ◌∷◌, Option, none, some, Bool, true, false, ◌≡◌, refl, Bool-cases, inl, inr,
  ◌&&◌, is_empty, Assoc,
}
use cluster_openshift_contro.Common.Fault.{Fault, Result, ok, err, is_not_found}
use cluster_openshift_contro.Names.{operator_namespace}
use cluster_openshift_contro.Observe.Unstructured.{Unstructured, IsLawful}
use cluster_openshift_contro.Observe.Listers.{Listers}
use cluster_openshift_contro.Observe.Field.{
  Value, Codec, scalar, bool_pointer, text, items, string_map, fields, other_type, is_empty_list,
  convert_json, observe_converted, observe_typed, observe_field_made, split_dots, unless_skipped,
  write_made, write_copied,
}
use cluster_openshift_contro.Observe.DeployImages.{
  builder_image_path, deployer_image_path, after_field, observe_images, from_config_map,
  keep_second, after_both, observe_controller_manager_images_config,
}
use cluster_openshift_contro.Observe.Observer.Writes.{
  WritesAt, empty-WritesAt, set-WritesAt, keep_text-WritesAt,
}
use cluster_openshift_contro.Observe.Observer.Owners.{OnlyAt}

module _ {Json V Config : Type 0} (codec : Codec Json V) (u : Unstructured Json Config) where
  -- What a write by ObserveField leaves, if it does not panic.
  abbrev pub LeavesAt : List (List String) → Option (Config × Option Fault) → Type 0
  LeavesAt paths none = Unit
  LeavesAt paths (some (c, e)) = WritesAt u paths c

  module _ (lawful : IsLawful u) (paths : List (List String)) where
    module _ {p : List String} (m : Mem p paths) (c : Config) (h : WritesAt u paths c) where
      abbrev written : Json → Option (Config × Option Fault)
      written v = write_made codec u c p v

      written-LeavesAt : (v : Json) → LeavesAt paths (written v)
      written-LeavesAt v = set-WritesAt u lawful m c v h

      unless_skipped-LeavesAt :
          (skip : Bool) (r : Option (Config × Option Fault))
          → LeavesAt paths r
          → LeavesAt paths (unless_skipped codec written c skip r)
      unless_skipped-LeavesAt true r k = h
      unless_skipped-LeavesAt false r k = k

      write_copied-LeavesAt : (r : Option Json) → LeavesAt paths (write_copied codec written c r)
      write_copied-LeavesAt none = tt
      write_copied-LeavesAt (some v) = written-LeavesAt v

      observe_converted-LeavesAt :
          (skip : Bool) (r : Result (Option Json))
          → LeavesAt paths (observe_converted codec written c skip r)
      observe_converted-LeavesAt skip (err e) = h
      observe_converted-LeavesAt true (ok none) = h
      observe_converted-LeavesAt false (ok none) = written-LeavesAt codec.null
      observe_converted-LeavesAt skip (ok (some v)) = written-LeavesAt v

      observe_typed-LeavesAt :
          (skip : Bool) (v : Value Json V)
          → LeavesAt paths (observe_typed codec written c u.of_text skip v)
      observe_typed-LeavesAt skip (scalar v) = written-LeavesAt v
      observe_typed-LeavesAt skip (bool_pointer none) = tt
      observe_typed-LeavesAt skip (bool_pointer (some b)) = written-LeavesAt (codec.of_bool b)
      observe_typed-LeavesAt skip (text s) =
          unless_skipped-LeavesAt (skip && is_empty s) _ (written-LeavesAt (u.of_text s))
      observe_typed-LeavesAt skip (items l) =
          unless_skipped-LeavesAt (skip && is_empty_list l) _
            (write_copied-LeavesAt (codec.copy_slice l))
      observe_typed-LeavesAt skip (string_map l) =
          unless_skipped-LeavesAt (skip && is_empty_list l) _
            (written-LeavesAt (codec.of_string_map l))
      observe_typed-LeavesAt skip (fields l) =
          unless_skipped-LeavesAt (skip && is_empty_list l) _
            (write_copied-LeavesAt (codec.copy_map l))
      observe_typed-LeavesAt skip (other_type v) =
          observe_converted-LeavesAt skip (convert_json codec (some v))

      pub observe_field_made-LeavesAt :
          (v : Value Json V) (name : String) (skip : Bool)
          → split_dots name ≡ p
          → LeavesAt paths (observe_field_made codec u c (some v) name skip)
      unfolding observe_field_made
      observe_field_made-LeavesAt v name skip e = rw e (observe_typed-LeavesAt skip v)

  module _ (lawful : IsLawful u) where
    abbrev formats : List (List String)
    formats = builder_image_path ∷ deployer_image_path ∷ []

    at_builder : Mem builder_image_path formats
    at_builder = mem-cons_self

    at_deployer : Mem deployer_image_path formats
    at_deployer = mem-cons_of_mem builder_image_path mem-cons_self

    split_builder : split_dots "build.imageTemplateFormat.format" ≡ builder_image_path
    unfolding split_dots
    split_builder = refl

    split_deployer : split_dots "deployer.imageTemplateFormat.format" ≡ deployer_image_path
    unfolding split_dots
    split_deployer = refl

    after_field-OnlyAt :
        (paths : List (List String)) (r : Option (Config × Option Fault))
        (next : Config → Option (Option Config × List Fault))
        → LeavesAt paths r
        → ((c : Config) → WritesAt u paths c → OnlyAt u paths (next c))
        → OnlyAt u paths (after_field r next)
    after_field-OnlyAt paths none next h k = tt
    after_field-OnlyAt paths (some (c, none)) next h k = k c h
    after_field-OnlyAt paths (some (c, some e)) next h k = tt

    observe_images-OnlyAt :
        (data_map : Assoc String) → OnlyAt u formats (observe_images codec u data_map)
    observe_images-OnlyAt data_map =
        after_field-OnlyAt formats _ _
          (observe_field_made-LeavesAt lawful formats at_builder u.empty
            (empty-WritesAt u lawful at_builder) _ _ true split_builder)
          (λ c h.
            after_field-OnlyAt formats _ _
              (observe_field_made-LeavesAt lawful formats at_deployer c h _ _ true split_deployer)
              (λ c' h'. h'))

    from_config_map-OnlyAt :
        (previous : Config) (r : Result (Assoc String))
        → WritesAt u formats previous
        → OnlyAt u formats (from_config_map codec u previous r)
    from_config_map-OnlyAt previous (ok data_map) h = observe_images-OnlyAt data_map
    from_config_map-OnlyAt previous (err e) h = elim (Bool-cases (is_not_found e)) [
      | inl on ↦ rw on (empty-WritesAt u lawful at_builder)
      | inr off ↦ rw off h
    ]

    after_both-OnlyAt :
        (r : Result (Assoc String)) (kept : Config × Option Fault)
        → WritesAt u formats kept.0
        → OnlyAt u formats (after_both codec u r kept)
    after_both-OnlyAt r (c, none) h = from_config_map-OnlyAt c r h
    after_both-OnlyAt r (c, some e) h = h

    keep_second-WritesAt :
        (r : Result (Option String)) (kept : Config × Option Fault)
        → WritesAt u formats kept.0
        → WritesAt u formats (keep_second codec u r kept).0
    keep_second-WritesAt r (c, none) h = keep_text-WritesAt u lawful at_deployer c r h
    keep_second-WritesAt r (c, some e) h = h

    pub images-OnlyAt :
        {K Network : Type 0} (listers : Listers K Network) (existing : Config)
        → OnlyAt u
            (builder_image_path ∷ deployer_image_path ∷ [])
            (observe_controller_manager_images_config codec u listers existing)
    unfolding observe_controller_manager_images_config
    images-OnlyAt listers existing =
        after_both-OnlyAt
          (listers.config_map_lister operator_namespace "openshift-controller-manager-images") _
          (keep_second-WritesAt (u.nested_string existing deployer_image_path) _ (
            keep_text-WritesAt u lawful at_builder u.empty
              (u.nested_string existing builder_image_path) (empty-WritesAt u lawful at_builder)))
