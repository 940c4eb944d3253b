-- ===== src/Observe/Observer/BuildFields.antt =====
-- The observer of builds keeps to its paths.
use mathlib.Core.List.{Mem, mem-cons_self, mem-cons_of_mem}
use mathlib.Core.Option.{some_inj}
use cluster_openshift_contro.Common.{
  ℕ, zero, suc, String, List, [], ◌∷◌, Option, none, some, Bool, true, false, ◌≡◌, refl, Bool-cases,
  inl, inr, not,
}
use cluster_openshift_contro.Common.Fault.{Fault, Result, ok, err, is_not_found}
use cluster_openshift_contro.Observe.Unstructured.{Unstructured, IsLawful}
use cluster_openshift_contro.Observe.Listers.{Listers, BuildConfig}
use cluster_openshift_contro.Observe.Field.{Value, Codec, other_type, is_empty_list, split_dots}
use cluster_openshift_contro.Observe.Builds.{
  git_http_proxy_path, git_https_proxy_path, git_no_proxy_path, after_field, field_if, list_field,
  observe_overrides, observe_build, from_build, keep_next, after_kept,
  observe_build_controller_config,
}
use cluster_openshift_contro.Observe.Observer.Writes.{WritesAt, empty-WritesAt, keep_text-WritesAt}
use cluster_openshift_contro.Observe.Observer.Owners.{OnlyAt}
use cluster_openshift_contro.Observe.Observer.Fields.{LeavesAt, observe_field_made-LeavesAt}

abbrev nth {ℓ} : {A : Type ℓ} → List A → ℕ → Option A
nth [] n = none
nth (x ∷ xs) zero = some x
nth (x ∷ xs) (suc n) = nth xs n

nth-Mem {ℓ} : {A : Type ℓ} {x : A} (l : List A) (n : ℕ) → nth l n ≡ some x → Mem x l
nth-Mem [] n h = absurd (cc)
nth-Mem {x} (y ∷ l) zero h = rw (some_inj.0 h) mem-cons_self
nth-Mem (y ∷ l) (suc n) h = mem-cons_of_mem y (nth-Mem l n h)

abbrev defaults : String → List String
defaults field = "build" ∷ "buildDefaults" ∷ field ∷ []

abbrev overrides : String → List String
overrides field = "build" ∷ "buildOverrides" ∷ field ∷ []

-- Where the build configuration is observed.
abbrev pub build_paths : List (List String)
build_paths =
    git_http_proxy_path
    ∷ git_https_proxy_path
    ∷ git_no_proxy_path
    ∷ defaults "env"
    ∷ defaults "imageLabels"
    ∷ defaults "resources"
    ∷ overrides "imageLabels"
    ∷ overrides "nodeSelector"
    ∷ overrides "tolerations"
    ∷ overrides "forcePull"
    ∷ []

-- A field's name, split at the dots, is a path of the list.
record IsField (name : String) : Type 0 where
  path : List String
  splits : split_dots name ≡ path
  listed : Mem path build_paths

there0 : Mem git_http_proxy_path build_paths
there0 = nth-Mem build_paths 0 refl

there1 : Mem git_https_proxy_path build_paths
there1 = nth-Mem build_paths 1 refl

there2 : Mem git_no_proxy_path build_paths
there2 = nth-Mem build_paths 2 refl

abbrev field_at :
    {name : String} (p : List String) (n : ℕ)
    → split_dots name ≡ p
    → nth build_paths n ≡ some p
    → IsField name
field_at p n split found = record { path = p; splits = split; listed = nth-Mem build_paths n found }

env_field : IsField "build.buildDefaults.env"
unfolding split_dots
env_field = field_at (defaults "env") 3 refl refl

labels_field : IsField "build.buildDefaults.imageLabels"
unfolding split_dots
labels_field = field_at (defaults "imageLabels") 4 refl refl

resources_field : IsField "build.buildDefaults.resources"
unfolding split_dots
resources_field = field_at (defaults "resources") 5 refl refl

override_labels_field : IsField "build.buildOverrides.imageLabels"
unfolding split_dots
override_labels_field = field_at (overrides "imageLabels") 6 refl refl

selector_field : IsField "build.buildOverrides.nodeSelector"
unfolding split_dots
selector_field = field_at (overrides "nodeSelector") 7 refl refl

tolerations_field : IsField "build.buildOverrides.tolerations"
unfolding split_dots
tolerations_field = field_at (overrides "tolerations") 8 refl refl

force_pull_field : IsField "build.buildOverrides.forcePull"
unfolding split_dots
force_pull_field = field_at (overrides "forcePull") 9 refl refl

module _ {Json V Config : Type 0} (codec : Codec Json V) (list_value : List V → V)
    (u : Unstructured Json Config) (lawful : IsLawful u) where
  abbrev Next : Type 0
  Next = Config → Option (Option Config × List Fault)

  record StaysAt (o : Option (Option Config × List Fault)) : Type 0 where
    stays : OnlyAt u build_paths o

  after_field-OnlyAt :
      (name : String) (r : Option (Config × Option Fault)) (next : Next)
      → LeavesAt codec u build_paths r
      → ((c : Config) → WritesAt u build_paths c → StaysAt (next c))
      → OnlyAt u build_paths (after_field name r next)
  after_field-OnlyAt name none next h k = tt
  after_field-OnlyAt name (some (c, none)) next h k = (k c h).stays
  after_field-OnlyAt name (some (c, some e)) next h k = tt

  field_if-StaysAt :
      (name : String) (field : IsField name) (present : Bool) (v : Value Json V) (c : Config)
      (next : Next)
      → WritesAt u build_paths c
      → ((c : Config) → WritesAt u build_paths c → StaysAt (next c))
      → StaysAt (field_if codec list_value u present v name c next)
  unfolding field_if
  field_if-StaysAt name field false v c next h k = k c h
  field_if-StaysAt name field true v c next h k = record {
    stays =
        after_field-OnlyAt name _ next
          (observe_field_made-LeavesAt codec u lawful build_paths field.listed c h v name true
            field.splits)
          k;
  }

  list_field-StaysAt :
      (l : List V) (name : String) (field : IsField name) (c : Config) (next : Next)
      → WritesAt u build_paths c
      → ((c : Config) → WritesAt u build_paths c → StaysAt (next c))
      → StaysAt (list_field codec list_value u l name c next)
  list_field-StaysAt l name field c next h k =
      field_if-StaysAt name field (not (is_empty_list l)) (other_type (list_value l)) c next h k

  overrides-StaysAt :
      (build : BuildConfig V) (c : Config)
      → WritesAt u build_paths c
      → StaysAt (observe_overrides codec list_value u build c)
  overrides-StaysAt build c h = field_if-StaysAt _ override_labels_field _ _ c _ h (λ c1 h1.
      field_if-StaysAt _ selector_field _ _ c1 _ h1 (λ c2 h2.
        field_if-StaysAt _ tolerations_field _ _ c2 _ h2 (λ c3 h3.
          field_if-StaysAt _ force_pull_field _ _ c3 _ h3 (λ c4 h4. record { stays = h4 }))))

  observe_build-StaysAt : (build : BuildConfig V) → StaysAt (observe_build codec list_value u build)
  unfolding observe_build
  observe_build-StaysAt build =
      list_field-StaysAt build.default_env "build.buildDefaults.env" env_field u.empty _
        (empty-WritesAt u lawful there0)
        (λ c1 h1.
          list_field-StaysAt build.default_image_labels "build.buildDefaults.imageLabels"
            labels_field c1 _ h1
            (λ c2 h2.
              field_if-StaysAt "build.buildDefaults.resources" resources_field true
                (other_type build.default_resources) c2 (observe_overrides codec list_value u build)
                h2 (overrides-StaysAt build)))

  from_build-OnlyAt :
      (previous : Config) (r : Result (BuildConfig V))
      → WritesAt u build_paths previous
      → OnlyAt u build_paths (from_build codec list_value u previous r)
  from_build-OnlyAt previous (ok build) h = (observe_build-StaysAt build).stays
  from_build-OnlyAt previous (err e) h = elim (Bool-cases (is_not_found e)) [
    | inl on ↦ rw on (empty-WritesAt u lawful there0)
    | inr off ↦ rw off h
  ]

  after_kept-OnlyAt :
      (r : Result (BuildConfig V)) (kept : Config × Option Fault)
      → WritesAt u build_paths kept.0
      → OnlyAt u build_paths (after_kept codec list_value u r kept)
  after_kept-OnlyAt r (c, none) h = from_build-OnlyAt c r h
  after_kept-OnlyAt r (c, some e) h = h

  keep_next-WritesAt :
      {p : List String} (m : Mem p build_paths) (r : Result (Option String))
      (kept : Config × Option Fault)
      → WritesAt u build_paths kept.0
      → WritesAt u build_paths (keep_next codec list_value u p r kept).0
  keep_next-WritesAt m r (c, none) h = keep_text-WritesAt u lawful m c r h
  keep_next-WritesAt m r (c, some e) h = h

  pub builds-OnlyAt :
      {Network : Type 0} (listers : Listers V Network) (existing : Config)
      → OnlyAt u build_paths (observe_build_controller_config codec list_value u listers existing)
  unfolding observe_build_controller_config
  builds-OnlyAt listers existing = after_kept-OnlyAt (listers.build_config_lister "cluster") _ (
      keep_next-WritesAt there2 (u.nested_string existing git_no_proxy_path) _ (
        keep_next-WritesAt there1 (u.nested_string existing git_https_proxy_path) _ (
          keep_text-WritesAt u lawful there0 u.empty (u.nested_string existing git_http_proxy_path)
            (empty-WritesAt u lawful there0))))
