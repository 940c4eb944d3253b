-- ===== src/Observe/Images/Outcome.antt =====
-- What the observers of the image registry's names observe.
use cluster_openshift_contro.Common.{
  String, List, [], ◌∷◌, Option, none, some, true, false, ◌≡◌, ◌⊎◌, inl, inr, refl, ap, ◌∙◌, value,
  Bool-cases,
}
use cluster_openshift_contro.Common.Fault.{Fault, Result, ok, err, is_not_found}
use cluster_openshift_contro.Observe.Unstructured.{Unstructured, IsLawful}
use cluster_openshift_contro.Observe.Listers.{Listers, ImageConfig}
use cluster_openshift_contro.Observe.Previous.{
  nonempty, nonempty_list, slice, keep_text, keep_texts, or_previous, write_text-empty,
  write_texts-empty,
}
use cluster_openshift_contro.Observe.Images.{
  internal_registry_hostname_path, registry_urls_path, after_previous,
  observe_internal_registry_hostname, observe_external_registry_hostnames,
}

module _ {Json Config A : Type 0} (u : Unstructured Json Config) (look : Config → Result (Option A))
    (observe : ImageConfig → Option A) (write : ImageConfig → Config × Option Fault)
    (written : (image : ImageConfig)
      → ((write image).1 ≡ none) × (look (write image).0 ≡ ok (observe image)))
    (nothing : look u.empty ≡ ok none) where
  or_previous-none :
      (previous : Config) (r : Config × Option Fault)
      → r.1 ≡ none
      → or_previous u previous r ≡ (r.0, [])
  or_previous-none previous (c, none) h = refl
  or_previous-none previous (c, some e) h = absurd (cc)

  -- The three outcomes of an observer that has kept the existing value `old`.
  after_previous_lem :
      (kept : Config × Option Fault) (old : Option A) (image : Result ImageConfig)
      → kept.1 ≡ none
      → look kept.0 ≡ ok old
      → ((i : ImageConfig) × (image ≡ ok i)
          × ((after_previous u write image kept).1 ≡ [])
          × (look (after_previous u write image kept).0 ≡ ok (observe i)))
        ⊎ ((e : Fault) × (image ≡ err e)
            × ((is_not_found e ≡ true)
                  × ((after_previous u write image kept).1 ≡ [])
                  × (look (after_previous u write image kept).0 ≡ ok none)
                ⊎ (is_not_found e ≡ false)
                  × ((after_previous u write image kept).1 ≡ e ∷ [])
                  × (look (after_previous u write image kept).0 ≡ ok old)))
  after_previous_lem (previous, some e) old image h l = absurd (cc)
  after_previous_lem (previous, none) old (ok i) h l =
      let same = or_previous-none previous (write i) (written i).0 in
      inl (i, refl, ap (λ r. r.1) same, ap (λ r. look r.0) same ∙ (written i).1)
  after_previous_lem (previous, none) old (err e) h l = inr (
    e,
    refl,
    elim (Bool-cases (is_not_found e)) [
      | inl missing ↦ inl (missing, rw missing refl, rw missing nothing)
      | inr other ↦ inr (other, rw other refl, rw other l)
    ],
  )

module _ {Json Config Network : Type 0} (u : Unstructured Json Config) (lawful : IsLawful u)
    (listers : Listers Json Network) (existing : Config) where
  abbrev hostname_of : Config → Result (Option String)
  hostname_of c = u.nested_string c internal_registry_hostname_path

  abbrev urls_of : Config → Result (Option (List String))
  urls_of c = u.nested_string_slice c registry_urls_path

  -- If the existing host name can be read, the observer reports the host name of the image
  -- configuration; none, without an error, if there is no such configuration; and the existing one
  -- with the error if the configuration cannot be read. An empty name counts as none.
  pub observe_internal_registry_hostname_lem :
      (old : Option String)
      → u.nested_string existing internal_registry_hostname_path ≡ ok old
      → ((image : ImageConfig) × (listers.image_config_lister "cluster" ≡ ok image)
          × ((observe_internal_registry_hostname u listers existing).1 ≡ [])
          × (u.nested_string
                (observe_internal_registry_hostname u listers existing).0
                internal_registry_hostname_path
              ≡ ok (nonempty image.internal_registry_hostname)))
        ⊎ ((e : Fault) × (listers.image_config_lister "cluster" ≡ err e)
            × ((is_not_found e ≡ true)
                  × ((observe_internal_registry_hostname u listers existing).1 ≡ [])
                  × (u.nested_string
                        (observe_internal_registry_hostname u listers existing).0
                        internal_registry_hostname_path
                      ≡ ok none)
                ⊎ (is_not_found e ≡ false)
                  × ((observe_internal_registry_hostname u listers existing).1 ≡ e ∷ [])
                  × (u.nested_string
                        (observe_internal_registry_hostname u listers existing).0
                        internal_registry_hostname_path
                      ≡ ok (nonempty (value old)))))
  unfolding observe_internal_registry_hostname
  observe_internal_registry_hostname_lem old h =
      let k : String = "dockerPullSecret" in
      let ks : List String = "internalRegistryHostname" ∷ [] in
      let (no_error, kept) = write_text-empty u lawful k ks (value old) in
      after_previous_lem u hostname_of (λ i. nonempty i.internal_registry_hostname) _
        (λ i. write_text-empty u lawful k ks i.internal_registry_hostname) (lawful.empty_text k ks)
        (keep_text u u.empty internal_registry_hostname_path (hostname_of existing))
        (nonempty (value old)) (listers.image_config_lister "cluster") (rw h no_error) (rw h kept)

  -- If the existing external host names can be read, the observer reports those of the image
  -- configuration; none, without an error, if there is no such configuration; and the existing ones
  -- with the error if the configuration cannot be read. An empty list counts as none.
  pub observe_external_registry_hostnames_lem :
      (old : Option (List String))
      → u.nested_string_slice existing registry_urls_path ≡ ok old
      → ((image : ImageConfig) × (listers.image_config_lister "cluster" ≡ ok image)
          × ((observe_external_registry_hostnames u listers existing).1 ≡ [])
          × (u.nested_string_slice
                (observe_external_registry_hostnames u listers existing).0
                registry_urls_path
              ≡ ok (nonempty_list image.external_registry_hostnames)))
        ⊎ ((e : Fault) × (listers.image_config_lister "cluster" ≡ err e)
            × ((is_not_found e ≡ true)
                  × ((observe_external_registry_hostnames u listers existing).1 ≡ [])
                  × (u.nested_string_slice
                        (observe_external_registry_hostnames u listers existing).0
                        registry_urls_path
                      ≡ ok none)
                ⊎ (is_not_found e ≡ false)
                  × ((observe_external_registry_hostnames u listers existing).1 ≡ e ∷ [])
                  × (u.nested_string_slice
                        (observe_external_registry_hostnames u listers existing).0
                        registry_urls_path
                      ≡ ok (nonempty_list (slice old)))))
  unfolding observe_external_registry_hostnames
  observe_external_registry_hostnames_lem old h =
      let k : String = "dockerPullSecret" in
      let ks : List String = "registryURLs" ∷ [] in
      let (no_error, kept) = write_texts-empty u lawful k ks (slice old) in
      after_previous_lem u urls_of (λ i. nonempty_list i.external_registry_hostnames) _
        (λ i. write_texts-empty u lawful k ks i.external_registry_hostnames)
        (lawful.empty_texts k ks) (keep_texts u u.empty registry_urls_path (urls_of existing))
        (nonempty_list (slice old)) (listers.image_config_lister "cluster") (rw h no_error)
        (rw h kept)
