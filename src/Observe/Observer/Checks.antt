-- ===== src/Observe/Observer/Checks.antt =====
-- The observers merged in a configuration of the test kind.
use mathlib.Core.List.{Mem, Memᴰ, Permᴰ, mem-cons_self}
use cluster_openshift_contro.Common.{
  String, List, [], ◌∷◌, ◌++◌, Option, none, some, true, ◌≡◌, refl, sym, ap, arith, ◌⊎◌, inl, inr,
  ◌∙◌, All,
}
use cluster_openshift_contro.Common.Fault.{Result, ok, err, errorf}
use cluster_openshift_contro.Cluster.{Lister}
use cluster_openshift_contro.Observe.Unstructured.Flat.{
  Entry, text, texts, flag, FlatConfig, flat, flat-IsLawful, find,
}
use cluster_openshift_contro.Observe.Images.{
  internal_registry_hostname_path, registry_urls_path, observe_internal_registry_hostname,
  observe_external_registry_hostnames,
}
use cluster_openshift_contro.Observe.Sample.{listers, codec}
use cluster_openshift_contro.Observe.Listers.{Listers}
use cluster_openshift_contro.Observe.Observer.{
  ObserveConfigFunc, observed, observer_funcs, feature_gates_path,
}
use cluster_openshift_contro.Observe.Network.{
  ingress_ip_path, observe_external_ip_auto_assign_cidrs,
}
use cluster_openshift_contro.Observe.DeployImages.{
  builder_image_path, observe_controller_manager_images_config,
}
use cluster_openshift_contro.Registry.{image_registry_is_enabled}
use cluster_openshift_contro.Observe.Controllers.{
  controllers_path, observe_controllers, collect_disabled, disabled_always_controllers,
  disabled_image_registry_controllers, disabled_build_controllers,
  disabled_deployment_config_controllers,
}
use cluster_openshift_contro.Common.{lookup}
use cluster_openshift_contro.Observe.Builds.{observe_build_controller_config}
use cluster_openshift_contro.Observe.Observer.Writes.{Absent, empty-WritesAt, set-WritesAt}
use cluster_openshift_contro.Observe.Observer.Owners.{OnlyAt}
use cluster_openshift_contro.Observe.Observer.Entries.{OwnedFunc, collect, IsMerge}
use cluster_openshift_contro.Observe.Observer.Merging.{entries, merged-text}

abbrev concat : List FlatConfig → FlatConfig
concat [] = []
concat (c ∷ cs) = c ++ concat cs

abbrev either : Option Entry → Option Entry → Option Entry
either none o = o
either (some v) o = some v

find-append : (c d : FlatConfig) (q : List String) → find (c ++ d) q ≡ either (find c q) (find d q)
find-append [] d q = refl
find-append ((p, v) ∷ c) d q = ground (arith, find-append c d q)

Absent-find :
    (c : FlatConfig) (q : List String) (o : Option Entry)
    → find c q ≡ o
    → Absent flat c q
    → o ≡ none
Absent-find c q none h a = refl
Absent-find c q (some (text s)) h a = absurd (cc)
Absent-find c q (some (texts l)) h a = absurd (cc)
Absent-find c q (some (flag b)) h a = absurd (cc)

abbrev IsOwn : List String → FlatConfig → FlatConfig → Type 0
IsOwn q c d = Absent flat d q ⊎ (d ≡ c)

find-own :
    (q : List String) (c d : FlatConfig) → IsOwn q c d → (find d q ≡ none) ⊎ (find d q ≡ find c q)
find-own q c d (inl a) = inl (Absent-find d q (find d q) refl a)
find-own q c d (inr e) = inr (ap (λ d. find d q) e)

either_right : (a b o : Option Entry) → (a ≡ none) ⊎ (a ≡ o) → b ≡ o → either a b ≡ o
either_right a b o (inl e) h = rw e h
either_right a b none (inr e) h = rw (e, h) refl
either_right a b (some v) (inr e) h = rw e refl

either_left : (a b o : Option Entry) → a ≡ o → (b ≡ none) ⊎ (b ≡ o) → either a b ≡ o
either_left a b none h (inl e) = rw (h, e) refl
either_left a b none h (inr e) = rw (h, e) refl
either_left a b (some v) h e = rw h refl

module _ (q : List String) (c : FlatConfig) where
  find-concat :
      (cs : List FlatConfig)
      → All (IsOwn q c) cs
      → (find (concat cs) q ≡ none) ⊎ (find (concat cs) q ≡ find c q)
  find-concat [] own = inl refl
  find-concat (d ∷ cs) (h, own) =
      let first = find-append d (concat cs) q in
      elim (find-concat cs own) [
        | inr rest ↦ inr (
            first ∙ either_right (find d q) (find (concat cs) q) (find c q) (find-own q c d h) rest)
        | inl rest ↦ elim (find-own q c d h) [
          | inl e ↦ inl (first ∙ rw (e, rest) refl)
          | inr e ↦
              inr (first ∙ either_left (find d q) (find (concat cs) q) (find c q) e (inl rest))
        ]
      ]

  find-concat_own :
      {cs : List FlatConfig} → Memᴰ c cs → All (IsOwn q c) cs → find (concat cs) q ≡ find c q
  find-concat_own (Memᴰ.head {x = d} {xs = cs} e) (h, own) =
      find-append d (concat cs) q
      ∙ either_left (find d q) (find (concat cs) q) (find c q) (ap (λ d. find d q) (sym e))
          (find-concat cs own)
  find-concat_own (Memᴰ.tail {x = d} {xs = cs} m) (h, own) =
      find-append d (concat cs) q
      ∙ either_right (find d q) (find (concat cs) q) (find c q) (find-own q c d h)
          (find-concat_own m own)

concat-IsMerge : IsMerge flat concat
concat-IsMerge = record {
  text_merged = λ cs c q o m own h. rw (find-concat_own q c m own) h;
  texts_merged = λ cs c q o m own h. rw (find-concat_own q c m own) h;
}

abbrev flags : List String → List String → ObserveConfigFunc FlatConfig
flags names path existing = some (some ((path, flag true) ∷ []), [])

abbrev no_profile : ObserveConfigFunc FlatConfig
no_profile existing = some (none, [])

flags-OnlyAt :
    (names path : List String) (existing : FlatConfig)
    → OnlyAt flat (path ∷ []) (flags names path existing)
flags-OnlyAt names path existing =
    let m : Mem path (path ∷ []) = mem-cons_self in
    set-WritesAt flat flat-IsLawful m [] (flag true) (empty-WritesAt flat flat-IsLawful m)

abbrev cidrs : Lister (Unit {0}) → Result (List String)
cidrs lister = ok ("10.0.0.0/24" ∷ [])

abbrev text_listers : Listers String (Unit {0})
text_listers = record {
  image_config_lister = listers.image_config_lister;
  build_config_lister = λ name. err (errorf "no connection");
  config_map_lister = listers.config_map_lister;
  network_lister = listers.network_lister;
  cluster_version_lister = listers.cluster_version_lister;
  cluster_operator_lister = listers.cluster_operator_lister;
}

abbrev unlisted : List String → String
unlisted l = ""

abbrev registry : FlatConfig
registry = (internal_registry_hostname_path, text "registry.svc:5000") ∷ []

abbrev urls : FlatConfig
urls = (registry_urls_path, texts ("registry.example.org" ∷ [])) ∷ []

abbrev others : List FlatConfig
others =
    ((ingress_ip_path, text "10.0.0.0/24") ∷ [])
    ∷ ((builder_image_path, text "builder:1") ∷ [])
    ∷ ((controllers_path, texts []) ∷ [])
    ∷ ((feature_gates_path, flag true) ∷ [])
    ∷ []
    ∷ []

abbrev sample_entries : List (OwnedFunc FlatConfig)
sample_entries = entries codec unlisted flat cidrs flags no_profile text_listers true

all_observed : collect sample_entries [] ≡ some (registry ∷ urls ∷ others)
unfolding observer_funcs observe_internal_registry_hostname observe_external_registry_hostnames
    observe_external_ip_auto_assign_cidrs observe_controller_manager_images_config
    observe_controllers observe_build_controller_config lookup collect_disabled
    disabled_always_controllers disabled_image_registry_controllers disabled_build_controllers
    disabled_deployment_config_controllers image_registry_is_enabled
all_observed = refl

abbrev hostname_func : ObserveConfigFunc FlatConfig
hostname_func existing = observed (observe_internal_registry_hostname flat text_listers existing)

hostname_listed : Memᴰ (internal_registry_hostname_path ∷ [], hostname_func) sample_entries
unfolding observer_funcs
hostname_listed = Memᴰ.head refl

hostname_observed : hostname_func [] ≡ some (some registry, [])
unfolding observe_internal_registry_hostname
hostname_observed = refl

merged-text_example :
    flat.nested_string (concat (urls ∷ registry ∷ others)) internal_registry_hostname_path
    ≡ ok (some "registry.svc:5000")
merged-text_example =
    merged-text codec unlisted flat cidrs flags no_profile text_listers flat-IsLawful flags-OnlyAt
      (λ existing. tt) concat concat-IsMerge true [] registry (registry ∷ urls ∷ others)
      (urls ∷ registry ∷ others) (internal_registry_hostname_path ∷ []) hostname_func []
      internal_registry_hostname_path hostname_listed mem-cons_self hostname_observed all_observed
      (Permᴰ.swap refl refl) refl
