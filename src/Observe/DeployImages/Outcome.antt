-- ===== src/Observe/DeployImages/Outcome.antt =====
-- What is observed of the images of builds and deployers.
use cluster_openshift_contro.Common.{
  String, List, [], ◌∷◌, Option, none, some, true, false, ◌≡◌, ◌⊎◌, inl, inr, refl, ap, ◌∙◌, arith,
  value, Bool-cases, is_empty, Assoc, get,
}
use cluster_openshift_contro.Common.Fault.{Fault, Result, ok, err, is_not_found}
use cluster_openshift_contro.Names.{operator_namespace}
use cluster_openshift_contro.Observe.Unstructured.{Unstructured, IsLawful}
use cluster_openshift_contro.Observe.Unstructured.Paths.{Incomparable}
use cluster_openshift_contro.Observe.Listers.{Listers}
use cluster_openshift_contro.Observe.Previous.{nonempty, write_text, keep_text}
use cluster_openshift_contro.Observe.Field.{Codec, text, split_dots, observe_field_made}
use cluster_openshift_contro.Observe.DeployImages.{
  Observed, builder_image_path, deployer_image_path, after_field, observe_images, keep_second,
  after_both, observe_controller_manager_images_config,
}

module _ {Json V Config : Type 0} (codec : Codec Json V) (u : Unstructured Json Config)
    (lawful : IsLawful u) where
  apart : Incomparable builder_image_path deployer_image_path
  apart = (refl, refl)

  back : Incomparable deployer_image_path builder_image_path
  back = (refl, refl)

  abbrev first : String → Config × Option Fault
  first s = write_text u u.empty builder_image_path s

  abbrev second : String → String → Config × Option Fault
  second s t = write_text u (first s).0 deployer_image_path t

  abbrev builder_of : Config → Result (Option String)
  builder_of c = u.nested_string c builder_image_path

  abbrev deployer_of : Config → Result (Option String)
  deployer_of c = u.nested_string c deployer_image_path

  -- Two texts written one after the other into an empty configuration are both found.
  write_two :
      (s t : String)
      → ((first s).1 ≡ none)
        × ((second s t).1 ≡ none)
        × (builder_of (second s t).0 ≡ ok (nonempty s))
        × (deployer_of (second s t).0 ≡ ok (nonempty t))
  unfolding write_text
  write_two s t =
      let k : String = "build" in
      let l : String = "deployer" in
      let ks : List String = "imageTemplateFormat" ∷ "format" ∷ [] in
      let set_s = lawful.set_empty k ks (u.of_text s) in
      let set_t = lawful.set_empty l ks (u.of_text t) in
      let c = (u.set_nested_field u.empty builder_image_path (u.of_text s)).0 in
      let after =
        lawful.set_after u.empty builder_image_path deployer_image_path (u.of_text s) (u.of_text t)
          apart
        ∙ set_t in
      elim (Bool-cases (is_empty s)) [
        | inl no_s ↦ elim (Bool-cases (is_empty t)) [
          | inl no_t ↦ rw (no_s, no_t) (refl, refl, lawful.empty_text k ks, lawful.empty_text l ks)
          | inr has_t ↦
              rw (no_s, has_t)
                (
                  refl,
                  set_t,
                  lawful.text_set_other u.empty deployer_image_path builder_image_path (u.of_text t)
                        back
                      ∙ lawful.empty_text k ks,
                  lawful.text_set u.empty deployer_image_path t set_t,
                )
        ]
        | inr has_s ↦ elim (Bool-cases (is_empty t)) [
          | inl no_t ↦
              rw (has_s, no_t)
                (
                  set_s,
                  refl,
                  lawful.text_set u.empty builder_image_path s set_s,
                  lawful.text_set_other u.empty builder_image_path deployer_image_path (u.of_text s)
                        apart
                      ∙ lawful.empty_text l ks,
                )
          | inr has_t ↦
              rw (has_s, has_t)
                (
                  set_s,
                  after,
                  lawful.text_set_other c deployer_image_path builder_image_path (u.of_text t) back
                      ∙ lawful.text_set u.empty builder_image_path s set_s,
                  lawful.text_set c deployer_image_path t after,
                )
        ]
      ]

  keep_second-none :
      (r : Config × Option Fault) (t : Option String)
      → r.1 ≡ none
      → keep_second codec u (ok t) r ≡ write_text u r.0 deployer_image_path (value t)
  unfolding keep_text
  keep_second-none (c, none) t h = refl
  keep_second-none (c, some e) t h = absurd (cc)

  -- A text is written unless it is empty.
  text_field :
      (c : Config) (s name : String)
      → observe_field_made codec u c (some (text s)) name true
        ≡ some (write_text u c (split_dots name) s)
  unfolding observe_field_made write_text
  text_field c s name = elim (Bool-cases (is_empty s)) [ inl e ↦ rw e refl | inr e ↦ rw e refl ]

  after_ok :
      (r : Config × Option Fault) (next : Config → Observed Config)
      → r.1 ≡ none
      → after_field (some r) next ≡ next r.0
  after_ok (c, none) next h = refl
  after_ok (c, some e) next h = absurd (cc)

  images_lem :
      (data_map : Assoc String)
      → observe_images codec u data_map
        ≡ some (some (second (get "builderImage" data_map) (get "deployerImage" data_map)).0, [])
  unfolding split_dots
  images_lem data_map =
      let s = get "builderImage" data_map in
      let t = get "deployerImage" data_map in
      let (no_error, still_none, _, _) = write_two s t in
      let last : Config → Observed Config = λ c. some (some c, []) in
      let next : Config → Observed Config = λ c.
        after_field
          (observe_field_made codec u c (some (text t)) "deployer.imageTemplateFormat.format" true)
          last in
      ap (λ r. after_field r next) (text_field u.empty s "build.imageTemplateFormat.format")
      ∙ after_ok (first s) next no_error
      ∙ ap (λ r. after_field r last)
          (text_field (first s).0 t "deployer.imageTemplateFormat.format")
      ∙ after_ok (second s t) last still_none

  module _ {Network : Type 0} (listers : Listers Json Network) (existing : Config) where
    after_both_lem :
        (kept : Config × Option Fault) (s t : Option String) (r : Result (Assoc String))
        → kept ≡ second (value s) (value t)
        → ((data_map : Assoc String) × (out : Config) × (r ≡ ok data_map)
            × (after_both codec u r kept ≡ some (some out, []))
            × (u.nested_string out builder_image_path ≡ ok (nonempty (get "builderImage" data_map)))
            × (u.nested_string out deployer_image_path
                ≡ ok (nonempty (get "deployerImage" data_map))))
          ⊎ ((e : Fault) × (r ≡ err e)
              × ((is_not_found e ≡ true) × (after_both codec u r kept ≡ some (some u.empty, []))
                  ⊎ (is_not_found e ≡ false)
                    × (out : Config) × (after_both codec u r kept ≡ some (some out, e ∷ []))
                    × (u.nested_string out builder_image_path ≡ ok (nonempty (value s)))
                    × (u.nested_string out deployer_image_path ≡ ok (nonempty (value t)))))
    after_both_lem (out, some e) s t r h =
        let (_, still_none, _, _) = write_two (value s) (value t) in
        absurd (ground (arith, h, still_none))
    after_both_lem (out, none) s t (ok data_map) h =
        let (_, _, b, d) = write_two (get "builderImage" data_map) (get "deployerImage" data_map) in
        inl (
          data_map,
          (second (get "builderImage" data_map) (get "deployerImage" data_map)).0,
          refl,
          images_lem data_map,
          b,
          d,
        )
    after_both_lem (out, none) s t (err e) h =
        let (_, _, b, d) = write_two (value s) (value t) in
        inr (
          e,
          refl,
          elim (Bool-cases (is_not_found e)) [
            | inl missing ↦ inl (missing, rw missing refl)
            | inr other ↦ inr (
              other,
              out,
              rw other refl,
              ap (λ r. u.nested_string r.0 builder_image_path) h ∙ b,
              ap (λ r. u.nested_string r.0 deployer_image_path) h ∙ d,
            )
          ],
        )

    -- If the existing images can be read, the observer reports the two images of the ConfigMap;
    -- nothing, without an error, if there is no ConfigMap; and the existing images with the error if
    -- it cannot be read. An empty image counts as none.
    pub observe_controller_manager_images_lem :
        (s t : Option String)
        → u.nested_string existing builder_image_path ≡ ok s
        → u.nested_string existing deployer_image_path ≡ ok t
        → ((data_map : Assoc String) × (out : Config) × (listers.config_map_lister
                operator_namespace "openshift-controller-manager-images"
              ≡ ok data_map)
            × (observe_controller_manager_images_config codec u listers existing
                ≡ some (some out, []))
            × (u.nested_string out builder_image_path ≡ ok (nonempty (get "builderImage" data_map)))
            × (u.nested_string out deployer_image_path
                ≡ ok (nonempty (get "deployerImage" data_map))))
          ⊎ ((e : Fault) × (listers.config_map_lister operator_namespace
                  "openshift-controller-manager-images"
                ≡ err e)
              × ((is_not_found e ≡ true)
                    × (observe_controller_manager_images_config codec u listers existing
                        ≡ some (some u.empty, []))
                  ⊎ (is_not_found e ≡ false)
                    × (out : Config) × (observe_controller_manager_images_config codec u listers
                          existing
                        ≡ some (some out, e ∷ []))
                    × (u.nested_string out builder_image_path ≡ ok (nonempty (value s)))
                    × (u.nested_string out deployer_image_path ≡ ok (nonempty (value t)))))
    unfolding observe_controller_manager_images_config
    observe_controller_manager_images_lem s t hs ht =
        let (no_error, _, _, _) = write_two (value s) (value t) in
        rw (hs, ht)
          (after_both_lem (keep_second codec u (ok t) (first (value s))) s t
            (listers.config_map_lister operator_namespace "openshift-controller-manager-images")
            (keep_second-none (first (value s)) t no_error))
