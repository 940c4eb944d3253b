-- ===== src/Observe/Builds/Checks.antt =====
-- The theorem on the observed build configuration at a concrete input.
use cluster_openshift_contro.Common.{
  String, List, [], ◌∷◌, none, some, true, false, ◌≡◌, ◌≢◌, ◌⊎◌, refl,
}
use cluster_openshift_contro.Common.Fault.{Fault, Reason, ok, err, is_not_found}
use cluster_openshift_contro.Cluster.{Lister}
use cluster_openshift_contro.Observe.Unstructured.Flat.{FlatConfig, text, flat, flat-IsLawful}
use cluster_openshift_contro.Observe.Listers.{Listers, BuildConfig}
use cluster_openshift_contro.Observe.Previous.{nonempty}
use cluster_openshift_contro.Observe.Sample.{codec}
use cluster_openshift_contro.Observe.Builds.{
  Observed, git_http_proxy_path, git_https_proxy_path, git_no_proxy_path,
  observe_build_controller_config,
}
use cluster_openshift_contro.Observe.Builds.Outcome.{observe_build_controller_config_lem}

abbrev timed_out : Fault
timed_out = record { reason = Reason.other; text = "timed out" }

abbrev no_lister {ℓ} : {A : Type ℓ} → Lister A
no_lister name = err timed_out

abbrev listers : Listers String (Unit {0})
listers = record {
  image_config_lister = no_lister;
  build_config_lister = no_lister;
  config_map_lister = λ ns. no_lister;
  network_lister = no_lister;
  cluster_version_lister = no_lister;
  cluster_operator_lister = no_lister;
}

abbrev slice_value : List String → String
slice_value l = "[]"

abbrev existing : FlatConfig
existing = (git_http_proxy_path, text "http://proxy") ∷ []

abbrev observed : Observed FlatConfig
observed = observe_build_controller_config codec slice_value flat listers existing

observe_build_controller_config_lem_example :
    ((build : BuildConfig String) × (listers.build_config_lister "cluster" ≡ ok build)
      × (observed ≢ none))
    ⊎ ((e : Fault) × (listers.build_config_lister "cluster" ≡ err e)
        × ((is_not_found e ≡ true) × (observed ≡ some (some flat.empty, []))
            ⊎ (is_not_found e ≡ false)
              × (out : FlatConfig) × (observed ≡ some (some out, e ∷ []))
              × (flat.nested_string out git_http_proxy_path ≡ ok (nonempty "http://proxy"))
              × (flat.nested_string out git_https_proxy_path ≡ ok (nonempty ""))
              × (flat.nested_string out git_no_proxy_path ≡ ok (nonempty ""))))
observe_build_controller_config_lem_example =
    observe_build_controller_config_lem codec slice_value flat flat-IsLawful listers existing
      (some "http://proxy") none none refl refl refl
