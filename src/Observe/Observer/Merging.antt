-- ===== src/Observe/Observer/Merging.antt =====
-- What the observers observe together: no two of them write at the same path, so that the order in
-- which they are run and merged does not show.
use mathlib.Core.List.{Mem, Memᴰ, Permᴰ}
use cluster_openshift_contro.Common.{
  String, List, [], ◌∷◌, ◌++◌, Option, none, some, Bool, true, false, ◌&&◌, ◌≡◌, refl, sym, ap,
  arith, ◌⊎◌, inl, inr, ◌∙◌, if◌then◌else◌, all, all_of_mem, All,
}
use mathlib.Core.Path.{subst}
use mathlib.Core.Option.{some_inj}
use cluster_openshift_contro.Common.Fault.{Fault, Result, ok}
use cluster_openshift_contro.Cluster.{Lister}
use cluster_openshift_contro.Observe.Unstructured.{Unstructured, IsLawful}
use cluster_openshift_contro.Observe.Listers.{Listers}
use cluster_openshift_contro.Observe.Field.{Codec}
use cluster_openshift_contro.Observe.Images.{internal_registry_hostname_path, registry_urls_path}
use cluster_openshift_contro.Observe.Network.{ingress_ip_path}
use cluster_openshift_contro.Observe.DeployImages.{builder_image_path, deployer_image_path}
use cluster_openshift_contro.Observe.Controllers.{controllers_path}
use cluster_openshift_contro.Observe.Builds.{observe_build_controller_config}
use cluster_openshift_contro.Observe.Observer.{
  ObserveConfigFunc, NewFeatureFlags, feature_gates_path, observer_funcs,
}
use cluster_openshift_contro.Observe.Observer.Writes.{Absent, all_apart}
use cluster_openshift_contro.Observe.Observer.Owners.{
  OnlyAt, internal_registry-OnlyAt, registry_urls-OnlyAt, external_ip-OnlyAt, controllers-OnlyAt,
}
use cluster_openshift_contro.Observe.Observer.Entries.{
  OwnedFunc, zip, disjoint, disjoint_from, pairwise, add, collect, All-permᴰ, Memᴰ-permᴰ, IsMerge,
}
use cluster_openshift_contro.Observe.Observer.Fields.{images-OnlyAt}
use cluster_openshift_contro.Observe.Observer.BuildFields.{build_paths, builds-OnlyAt}

abbrev pub tls_paths : List (List String)
tls_paths = ("servingInfo" ∷ "minTLSVersion" ∷ []) ∷ ("servingInfo" ∷ "cipherSuites" ∷ []) ∷ []

-- The paths of each observer, in the order of the observers.
abbrev pub observer_paths : Bool → List (List (List String))
observer_paths build_enabled =
    ((internal_registry_hostname_path ∷ [])
      ∷ (registry_urls_path ∷ [])
      ∷ (ingress_ip_path ∷ [])
      ∷ (builder_image_path ∷ deployer_image_path ∷ [])
      ∷ (controllers_path ∷ [])
      ∷ (feature_gates_path ∷ [])
      ∷ tls_paths
      ∷ [])
    ++ (if build_enabled then build_paths ∷ [] else [])

module _ {Json Config : Type 0} (u : Unstructured Json Config) where
  abbrev Owns : OwnedFunc Config → Type 0
  Owns e = (existing : Config) → OnlyAt u e.0 (e.1 existing)

  module _ (existing : Config) (q : List String) (c : Config) where
    abbrev IsOwn : Config → Type 0
    IsOwn d = Absent u d q ⊎ (d ≡ c)

    -- An observer whose paths are apart from `q` adds no value there.
    added :
        (ps : List (List String)) (r : Option (Option Config × List Fault))
        (rest : Option (List Config)) (cs : List Config)
        → OnlyAt u ps r
        → all_apart ps q ≡ true
        → add r rest ≡ some cs
        → (ds : List Config) × (rest ≡ some ds)
          × ((cs ≡ ds) ⊎ ((d : Config) × Absent u d q × (d ∷ ds ≡ cs)))
    added ps none rest cs own out h = absurd (cc)
    added ps (some (none, errors)) rest cs own out h = (cs, h, inl refl)
    added ps (some (some d, errors)) none cs own out h = absurd (cc)
    added ps (some (some d, errors)) (some ds) cs own out h =
        (ds, refl, inr (d, own q out, some_inj.0 h))

    others :
        (es : List (OwnedFunc Config)) (cs : List Config)
        → All Owns es
        → all (λ e. all_apart e.0 q) es ≡ true
        → collect es existing ≡ some cs
        → All IsOwn cs
    others [] cs own out h = subst (All IsOwn) (some_inj.0 h) tt
    others (e ∷ es) cs (own, owns) out h =
        let (ds, collected, shape) =
          added e.0 (e.1 existing) (collect es existing) cs (own existing) (ground arith) h in
        let rest = others es ds owns (ground arith) collected in
        elim shape [
          | inl same ↦ subst (All IsOwn) (sym same) rest
          | inr (d, absent, same) ↦ subst (All IsOwn) same (inl absent, rest)
        ]

    abbrev Found : List Config → Type 0
    Found cs = Memᴰ c cs × All IsOwn cs

    own_added :
        (errors : List Fault) (r : Option (Option Config × List Fault))
        (rest : Option (List Config)) (cs : List Config)
        → r ≡ some (some c, errors)
        → add r rest ≡ some cs
        → (ds : List Config) × (rest ≡ some ds) × (c ∷ ds ≡ cs)
    own_added errors none rest cs e h = absurd (cc)
    own_added errors (some (none, _)) rest cs e h = absurd (cc)
    own_added errors (some (some d, _)) none cs e h = absurd (cc)
    own_added errors (some (some d, _)) (some ds) cs e h = (
      ds,
      refl,
      ap (λ d. d ∷ ds) (sym (some_inj.0 (ap (λ r. r.0) (some_inj.0 e)))) ∙ some_inj.0 h,
    )

    apart_all :
        (paths : List (List String)) (es : List (OwnedFunc Config))
        → Mem q paths
        → disjoint_from paths es ≡ true
        → all (λ e. all_apart e.0 q) es ≡ true
    apart_all paths [] m h = refl
    apart_all paths (e ∷ es) m h = ground (
      arith,
      h,
      all_of_mem (λ q. all_apart e.0 q) m (ground (arith, h)),
      apart_all paths es m (ground (arith, h)),
    )

    -- Where an observer has its paths, it alone has a value.
    found :
        (paths : List (List String)) (f : ObserveConfigFunc Config) (errors : List Fault)
        (es : List (OwnedFunc Config)) (cs : List Config)
        → Memᴰ (paths, f) es
        → Mem q paths
        → All Owns es
        → pairwise es ≡ true
        → f existing ≡ some (some c, errors)
        → collect es existing ≡ some cs
        → Found cs
    found paths f errors es cs (Memᴰ.head {x = e} {xs = rest} same) m (own, owns) p ran h =
        let (ds, collected, shape) =
          own_added errors (e.1 existing) (collect rest existing) cs
            (ap (λ e. e.1 existing) (sym same) ∙ ran) h in
        let out = apart_all paths rest m (
          subst (λ x. disjoint_from x rest ≡ true) (ap (λ e. e.0) (sym same))
            (ground (arith, p))) in
        subst Found shape (Memᴰ.head refl, (inr refl, others rest ds owns out collected))
    found paths f errors es cs (Memᴰ.tail {x = e} {xs = rest} t) m (own, owns) p ran h =
        let first : (disjoint e.0 paths && disjoint paths e.0) ≡ true =
          all_of_mem (λ e'. disjoint e.0 e'.0 && disjoint e'.0 e.0) ∣ t ∣₁ (ground (arith, p)) in
        let out = all_of_mem (λ q. all_apart e.0 q) m (ground (arith, first)) in
        let (ds, collected, shape) =
          added e.0 (e.1 existing) (collect rest existing) cs (own existing) out h in
        let (there, all_own) =
          found paths f errors rest ds t m owns (ground (arith, p)) ran collected in
        elim shape [
          | inl same ↦ subst Found (sym same) (there, all_own)
          | inr (d, absent, same) ↦ subst Found same (Memᴰ.tail there, (inl absent, all_own))
        ]

module _ {Json V Network Config : Type 0} (codec : Codec Json V) (list_value : List V → V)
    (u : Unstructured Json Config) (cidrs : Lister Network → Result (List String))
    (new_feature_flags : NewFeatureFlags Config) (tls_profile : ObserveConfigFunc Config)
    (listers : Listers V Network) where
  -- The observers with their paths.
  abbrev pub entries : Bool → List (OwnedFunc Config)
  entries build_enabled =
      zip (observer_paths build_enabled) (
        observer_funcs codec list_value u cidrs new_feature_flags tls_profile listers build_enabled)

  entries-pairwise : (b : Bool) → pairwise (entries b) ≡ true
  unfolding observer_funcs
  entries-pairwise true = refl
  entries-pairwise false = refl

  module _ (lawful : IsLawful u)
      (flags_own : (names : List String) (path : List String) (existing : Config)
        → OnlyAt u (path ∷ []) (new_feature_flags names path existing))
      (tls_own : (existing : Config) → OnlyAt u tls_paths (tls_profile existing)) where
    builds-Owns :
        (b : Bool)
        → All (Owns u) (
            zip (if b then build_paths ∷ [] else []) (
              if b
              then (λ existing. observe_build_controller_config codec list_value u listers existing)
                ∷ []
              else []))
    builds-Owns true = (builds-OnlyAt codec list_value u lawful listers, tt)
    builds-Owns false = tt

    entries-Owns : (b : Bool) → All (Owns u) (entries b)
    unfolding observer_funcs
    entries-Owns b = (
      internal_registry-OnlyAt u lawful listers,
      (
        registry_urls-OnlyAt u lawful listers,
        (
          (λ existing. external_ip-OnlyAt u lawful listers existing cidrs),
          (
            images-OnlyAt codec u lawful listers,
            (
              controllers-OnlyAt u lawful listers,
              (flags_own ("BuildCSIVolumes" ∷ []) feature_gates_path, (tls_own, builds-Owns b)),
            ),
          ),
        ),
      ),
    )

    module _ (merge_all : List Config → Config) (merges : IsMerge u merge_all)
        (build_enabled : Bool) (existing c : Config) (cs order : List Config)
        (paths : List (List String)) (f : ObserveConfigFunc Config) (errors : List Fault)
        (q : List String) where
      merged_own :
          Memᴰ (paths, f) (entries build_enabled)
          → Mem q paths
          → f existing ≡ some (some c, errors)
          → collect (entries build_enabled) existing ≡ some cs
          → Permᴰ cs order
          → Memᴰ c order × All (IsOwn u existing q c) order
      merged_own e m ran collected p =
          let (there, own) =
            found u existing q c paths f errors (entries build_enabled) cs e m
              (entries-Owns build_enabled) (entries-pairwise build_enabled) ran collected in
          (Memᴰ-permᴰ p there, All-permᴰ (IsOwn u existing q c) p own)

      -- If no observer panics, then in whatever order the observed configurations are merged, the
      -- text that is found at a path of an observer, or that there is none, is what this observer
      -- observed there; the observers of library-go are taken to write at their own paths only.
      pub merged-text :
          {o : Option String}
          → Memᴰ (paths, f) (entries build_enabled)
          → Mem q paths
          → f existing ≡ some (some c, errors)
          → collect (entries build_enabled) existing ≡ some cs
          → Permᴰ cs order
          → u.nested_string c q ≡ ok o
          → u.nested_string (merge_all order) q ≡ ok o
      merged-text {o} e m ran collected p h =
          let (there, own) = merged_own e m ran collected p in
          merges.text_merged order c q o there own h

      -- The same for the lists.
      pub merged-texts :
          {o : Option (List String)}
          → Memᴰ (paths, f) (entries build_enabled)
          → Mem q paths
          → f existing ≡ some (some c, errors)
          → collect (entries build_enabled) existing ≡ some cs
          → Permᴰ cs order
          → u.nested_string_slice c q ≡ ok o
          → u.nested_string_slice (merge_all order) q ≡ ok o
      merged-texts {o} e m ran collected p h =
          let (there, own) = merged_own e m ran collected p in
          merges.texts_merged order c q o there own h
