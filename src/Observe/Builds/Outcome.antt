-- ===== src/Observe/Builds/Outcome.antt =====
-- The observer of builds never passes a nil pointer on, and keeps the existing values on an error.
use cluster_openshift_contro.Common.{
  String, List, [], ◌∷◌, Option, none, some, Bool, true, false, ◌≡◌, ◌≢◌, ◌⊎◌, inl, inr, refl,
  Bool-cases, ap, ◌∙◌, not, arith, value, Assoc,
}
use cluster_openshift_contro.Common.Fault.{Fault, Result, ok, err, is_not_found}
use cluster_openshift_contro.Observe.Unstructured.{Unstructured, IsLawful}
use cluster_openshift_contro.Observe.Listers.{Listers, BuildConfig}
use cluster_openshift_contro.Observe.Field.{
  Value, Codec, bool_pointer, string_map, other_type, is_empty_list, observe_field_made,
  convert_json, observe_converted, write_made, split_dots,
}
use cluster_openshift_contro.Observe.Builds.{
  Observed, is_set, after_field, field_if, observe_build, after_kept,
  observe_build_controller_config, git_http_proxy_path, git_https_proxy_path, git_no_proxy_path,
  list_field, keep_next,
}
use cluster_openshift_contro.Observe.Previous.{
  nonempty, write_text, keep_text, Writable, write_text-Writable, write_text_other, write_text_self,
}

module _ {Json V Config : Type 0} (codec : Codec Json V) (list_value : List V → V)
    (u : Unstructured Json Config) where
  -- Values of the types that the observer passes on, all but a nil pointer.
  data IsSafe : Value Json V → Type 0 where
    safe_pointer : (b : Bool) → IsSafe (bool_pointer (some b))
    safe_map : (m : Assoc String) → IsSafe (string_map m)
    safe_other : (v : V) → IsSafe (other_type v)

  converted-some :
      (c : Config) (path : List String) (r : Result (Option Json))
      → observe_converted codec (write_made codec u c path) c true r ≢ none
  converted-some c path (err e) = λ h. cc
  converted-some c path (ok none) = λ h. cc
  converted-some c path (ok (some j)) = λ h. cc

  observe_field_made-some :
      (c : Config) (v : Value Json V) (name : String)
      → IsSafe v
      → observe_field_made codec u c (some v) name true ≢ none
  unfolding observe_field_made
  observe_field_made-some c v name (safe_pointer b) = λ h. cc
  observe_field_made-some c v name (safe_map []) = λ h. cc
  observe_field_made-some c v name (safe_map (e ∷ m)) = λ h. cc
  observe_field_made-some c v name (safe_other w) =
      converted-some c (split_dots name) (convert_json codec (some w))

  after_field-some :
      (name : String) (r : Option (Config × Option Fault)) (next : Config → Observed Config)
      → r ≢ none
      → ((c : Config) → next c ≢ none)
      → after_field name r next ≢ none
  after_field-some name none next h k = λ _. h refl
  after_field-some name (some (c, none)) next h k = k c
  after_field-some name (some (c, some e)) next h k = λ f. cc

  field_if-some :
      (present : Bool) (v : Value Json V) (name : String) (c : Config)
      (next : Config → Observed Config)
      → ((present ≡ false) ⊎ IsSafe v)
      → ((c : Config) → next c ≢ none)
      → field_if codec list_value u present v name c next ≢ none
  unfolding field_if
  field_if-some false v name c next h k = k c
  field_if-some true v name c next (inl h) k = λ _. cc
  field_if-some true v name c next (inr h) k =
      after_field-some name (observe_field_made codec u c (some v) name true) next
        (observe_field_made-some c v name h) k

  force_pull_guarded : (b : Option Bool) → (is_set b ≡ false) ⊎ IsSafe (bool_pointer b)
  force_pull_guarded none = inl refl
  force_pull_guarded (some b) = inr (safe_pointer b)

  list_some :
      (l : List V) (name : String) (c : Config) (next : Config → Observed Config)
      → ((c : Config) → next c ≢ none)
      → list_field codec list_value u l name c next ≢ none
  list_some l name c next k =
      field_if-some (not (is_empty_list l)) (other_type (list_value l)) name c next
        (inr (safe_other (list_value l))) k

  observe_build-some : (build : BuildConfig V) → observe_build codec list_value u build ≢ none
  unfolding observe_build
  observe_build-some build = list_some build.default_env "build.buildDefaults.env" u.empty _ (λ c1.
      list_some build.default_image_labels "build.buildDefaults.imageLabels" c1 _ (λ c2.
        field_if-some true (other_type build.default_resources) "build.buildDefaults.resources" c2 _
          (inr (safe_other build.default_resources))
          (λ c3.
            list_some build.override_image_labels "build.buildOverrides.imageLabels" c3 _ (λ c4.
              field_if-some (not (is_empty_list build.override_node_selector))
                (string_map build.override_node_selector) "build.buildOverrides.nodeSelector" c4 _
                (inr (safe_map build.override_node_selector))
                (λ c5.
                  list_some build.override_tolerations "build.buildOverrides.tolerations" c5 _
                    (λ c6.
                      field_if-some (is_set build.override_force_pull)
                        (bool_pointer build.override_force_pull) "build.buildOverrides.forcePull" c6
                        _ (force_pull_guarded build.override_force_pull) (λ c7 e. cc)))))))

  module _ (lawful : IsLawful u) where
    abbrev keep1 : String → Config × Option Fault
    keep1 s = write_text u u.empty git_http_proxy_path s

    abbrev keep2 : String → String → Config × Option Fault
    keep2 s t = write_text u (keep1 s).0 git_https_proxy_path t

    abbrev keep3 : String → String → String → Config × Option Fault
    keep3 s t v = write_text u (keep2 s t).0 git_no_proxy_path v

    empty_Writable : (k : String) (ks : List String) → Writable u u.empty (k ∷ ks)
    empty_Writable k ks s = lawful.set_empty k ks (u.of_text s)

    abbrev path : String → List String
    path k = "build" ∷ "buildDefaults" ∷ k ∷ []

    fresh : (k : String) → u.nested_string u.empty (path k) ≡ ok none
    fresh k = lawful.empty_text "build" ("buildDefaults" ∷ k ∷ [])

    free : (k : String) → Writable u u.empty (path k)
    free k = empty_Writable "build" ("buildDefaults" ∷ k ∷ [])

    keep_all :
        (s t v : String)
        → ((keep1 s).1 ≡ none)
          × ((keep2 s t).1 ≡ none)
          × ((keep3 s t v).1 ≡ none)
          × (u.nested_string (keep3 s t v).0 git_http_proxy_path ≡ ok (nonempty s))
          × (u.nested_string (keep3 s t v).0 git_https_proxy_path ≡ ok (nonempty t))
          × (u.nested_string (keep3 s t v).0 git_no_proxy_path ≡ ok (nonempty v))
    keep_all s t v =
        let p : List String = git_http_proxy_path in
        let q : List String = git_https_proxy_path in
        let r : List String = git_no_proxy_path in
        let (done1, found1) =
          write_text_self u lawful u.empty p s (free "gitHTTPProxy") (fresh "gitHTTPProxy") in
        let (done2, found2) =
          write_text_self u lawful (keep1 s).0 q t
            (write_text-Writable u lawful u.empty p s q (refl, refl) (free "gitHTTPSProxy"))
            (write_text_other u lawful u.empty p s q (refl, refl) ∙ fresh "gitHTTPSProxy") in
        let (done3, found3) =
          write_text_self u lawful (keep2 s t).0 r v
            (write_text-Writable u lawful (keep1 s).0 q t r (refl, refl)
              (write_text-Writable u lawful u.empty p s r (refl, refl) (free "gitNoProxy")))
            (write_text_other u lawful (keep1 s).0 q t r (refl, refl)
              ∙ write_text_other u lawful u.empty p s r (refl, refl)
              ∙ fresh "gitNoProxy") in
        (
          done1,
          done2,
          done3,
          write_text_other u lawful (keep2 s t).0 r v p (refl, refl)
              ∙ write_text_other u lawful (keep1 s).0 q t p (refl, refl)
              ∙ found1,
          write_text_other u lawful (keep2 s t).0 r v q (refl, refl) ∙ found2,
          found3,
        )

    keep_next-none :
        (path : List String) (r : Config × Option Fault) (o : Option String)
        → r.1 ≡ none
        → keep_next codec list_value u path (ok o) r ≡ write_text u r.0 path (value o)
    unfolding keep_text
    keep_next-none path (c, none) o h = refl
    keep_next-none path (c, some e) o h = absurd (cc)

    module _ {Network : Type 0} (listers : Listers V Network) (existing : Config) where
      after_kept_lem :
          (k : Config × Option Fault) (s t v : String) (b : Result (BuildConfig V))
          → k ≡ keep3 s t v
          → ((build : BuildConfig V) × (b ≡ ok build) × (after_kept codec list_value u b k ≢ none))
            ⊎ ((e : Fault) × (b ≡ err e)
                × ((is_not_found e ≡ true)
                      × (after_kept codec list_value u b k ≡ some (some u.empty, []))
                    ⊎ (is_not_found e ≡ false)
                      × (out : Config) × (after_kept codec list_value u b k
                          ≡ some (some out, e ∷ []))
                      × (u.nested_string out git_http_proxy_path ≡ ok (nonempty s))
                      × (u.nested_string out git_https_proxy_path ≡ ok (nonempty t))
                      × (u.nested_string out git_no_proxy_path ≡ ok (nonempty v))))
      after_kept_lem (out, some e) s t v b h =
          let (_, _, done, _, _, _) = keep_all s t v in absurd (ground (arith, h, done))
      after_kept_lem (out, none) s t v (ok build) h = inl (build, refl, observe_build-some build)
      after_kept_lem (out, none) s t v (err e) h =
          let (_, _, _, found1, found2, found3) = keep_all s t v in
          inr (
            e,
            refl,
            elim (Bool-cases (is_not_found e)) [
              | inl missing ↦ inl (missing, rw missing refl)
              | inr other ↦ inr (
                other,
                out,
                rw other refl,
                ap (λ r. u.nested_string r.0 git_http_proxy_path) h ∙ found1,
                ap (λ r. u.nested_string r.0 git_https_proxy_path) h ∙ found2,
                ap (λ r. u.nested_string r.0 git_no_proxy_path) h ∙ found3,
              )
            ],
          )

      -- If the three existing values can be read, a build configuration is observed without a panic;
      -- without one nothing is observed; and if it cannot be read, the three values are kept with the
      -- error. An empty value counts as none.
      pub observe_build_controller_config_lem :
          (s t v : Option String)
          → u.nested_string existing git_http_proxy_path ≡ ok s
          → u.nested_string existing git_https_proxy_path ≡ ok t
          → u.nested_string existing git_no_proxy_path ≡ ok v
          → ((build : BuildConfig V) × (listers.build_config_lister "cluster" ≡ ok build)
              × (observe_build_controller_config codec list_value u listers existing ≢ none))
            ⊎ ((e : Fault) × (listers.build_config_lister "cluster" ≡ err e)
                × ((is_not_found e ≡ true)
                      × (observe_build_controller_config codec list_value u listers existing
                          ≡ some (some u.empty, []))
                    ⊎ (is_not_found e ≡ false)
                      × (out : Config) × (observe_build_controller_config codec list_value u listers
                            existing
                          ≡ some (some out, e ∷ []))
                      × (u.nested_string out git_http_proxy_path ≡ ok (nonempty (value s)))
                      × (u.nested_string out git_https_proxy_path ≡ ok (nonempty (value t)))
                      × (u.nested_string out git_no_proxy_path ≡ ok (nonempty (value v)))))
      unfolding observe_build_controller_config
      observe_build_controller_config_lem s t v hs ht hv =
          let (done1, done2, _, _, _, _) = keep_all (value s) (value t) (value v) in
          rw (hs, ht, hv)
            (after_kept_lem
              (keep_next codec list_value u git_no_proxy_path (ok v)
                (keep_next codec list_value u git_https_proxy_path (ok t) (keep1 (value s))))
              (value s) (value t) (value v) (listers.build_config_lister "cluster")
              (rw (keep_next-none git_https_proxy_path (keep1 (value s)) t done1)
                (keep_next-none git_no_proxy_path (keep2 (value s) (value t)) v done2)))
