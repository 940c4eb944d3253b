-- ===== src/Operator/ConfigMaps/Outcomes.antt =====
-- What the functions for the ConfigMaps return and write.
use cluster_openshift_contro.Common.{
  String, List, [], ◌∷◌, Option, none, some, Bool, true, false, ◌≡◌, ◌≢◌, ◌↔◌, ◌⊎◌, inl, inr, refl,
  arith, Assoc, Bool-cases, ◌==◌, eq_iff, lookup, assign, lookup-assign,
}
use cluster_openshift_contro.Common.Fault.{Fault, Result, ok, err, is_not_found, Result-cases}
use cluster_openshift_contro.Cluster.{ClusterVersion}
use cluster_openshift_contro.Names.{target_namespace}
use cluster_openshift_contro.Operator.Types.{
  OperatorConfig, ConfigMap, ObjectRef, config_map_ref, secret_ref,
}
use cluster_openshift_contro.Operator.Api.{Api}
use cluster_openshift_contro.Operator.Capabilities.{disable_controllers}
use cluster_openshift_contro.Operator.ConfigMaps.{
  add_hashes, with_hashes, controllers_config, manage_config_map, manage_service_ca,
  service_ca_asset, service_ca_found, update_if_modified,
}

-- A Go map has no key twice.
abbrev pub Unique : Assoc String → Type 0
Unique [] = Unit
Unique ((k, v) ∷ m) = (lookup k m ≡ none) × Unique m

abbrev pub either_of : Option String → Option String → Option String
either_of none y = y
either_of (some x) y = some x

-- Whatever the order in which the hashes are visited, a key of theirs has its hash and every other
-- key what it had.
pub add_hashes-lookup :
    (hashes contents : Assoc String) (key : String)
    → Unique hashes
    → lookup key (add_hashes hashes contents) ≡ either_of (lookup key hashes) (lookup key contents)
unfolding add_hashes lookup
add_hashes-lookup [] contents key u = refl
add_hashes-lookup ((k, v) ∷ hashes) contents key (fresh, u) =
    let ih = add_hashes-lookup hashes (assign k v contents) key u in
    elim (Bool-cases (k == key)) [
      | inl same ↦ rw (ih, lookup-assign k key v contents, same, ← (eq_iff k key).0 same, fresh)
      | inr other ↦ rw (ih, lookup-assign k key v contents, other)
    ]

module _ {W : Type 0} (api : Api W) where
  abbrev pub layers : OperatorConfig → String → List String
  layers config controllers =
      api.asset "assets/config/openshift-controller-manager-defaultconfig.yaml"
      ∷ controllers_config api controllers
      ∷ config.observed_config
      ∷ config.unsupported_config_overrides
      ∷ []

  abbrev pub hashed_objects : List ObjectRef
  hashed_objects =
      config_map_ref target_namespace "client-ca"
      ∷ secret_ref target_namespace "serving-cert"
      ∷ config_map_ref target_namespace "openshift-global-ca"
      ∷ config_map_ref target_namespace "openshift-user-ca"
      ∷ []

  -- What the ConfigMap of the openshift controller manager is made of.
  pub record IsMade (config : OperatorConfig) (w : W) (cm : ConfigMap) : Type 0 where
    pub version : ClusterVersion
    pub controllers : String
    pub required : ConfigMap
    pub hashes : Assoc String
    pub version_read : api.get_cluster_version w ≡ ok version
    pub marshalled : api.marshal (disable_controllers api.map_order version) ≡ ok controllers
    pub merged :
        api.merge_config_map
          (api.config_map_asset "assets/openshift-controller-manager/cm.yaml")
          "config.yaml"
          (layers config controllers)
        ≡ ok required
    pub hashed : api.input_hashes hashed_objects w ≡ ok hashes
    pub made : cm ≡ with_hashes required hashes

  -- Why the ConfigMap cannot be made: the first of the four parts that fails, and its error.
  pub data IsMissing (config : OperatorConfig) (w : W) : Fault → Type 0 where
    no_version : (e : Fault) → api.get_cluster_version w ≡ err e → IsMissing config w e
    not_marshalled :
        (version : ClusterVersion) (e : Fault)
        → api.get_cluster_version w ≡ ok version
        → api.marshal (disable_controllers api.map_order version) ≡ err e
        → IsMissing config w e
    not_merged :
        (version : ClusterVersion) (controllers : String) (e : Fault)
        → api.get_cluster_version w ≡ ok version
        → api.marshal (disable_controllers api.map_order version) ≡ ok controllers
        → api.merge_config_map
            (api.config_map_asset "assets/openshift-controller-manager/cm.yaml")
            "config.yaml"
            (layers config controllers)
          ≡ err e
        → IsMissing config w e
    not_hashed :
        (version : ClusterVersion) (controllers : String) (required : ConfigMap) (e : Fault)
        → api.get_cluster_version w ≡ ok version
        → api.marshal (disable_controllers api.map_order version) ≡ ok controllers
        → api.merge_config_map
            (api.config_map_asset "assets/openshift-controller-manager/cm.yaml")
            "config.yaml"
            (layers config controllers)
          ≡ ok required
        → api.input_hashes hashed_objects w ≡ err e
        → IsMissing config w e

  -- Either the ClusterVersion cannot be read, the list of controllers not be marshalled, the layers
  -- not be merged or the hashes not be read, and the error of the first of these that fails is
  -- returned with nothing written; or the ConfigMap is made of the list of controllers, the merged
  -- layers and the hashes, and is applied.
  pub manage_config_map_lem :
      (config : OperatorConfig) (w : W)
      → ((e : Fault) × IsMissing config w e × (manage_config_map api config w ≡ some (err e, w)))
        ⊎ ((cm : ConfigMap) × IsMade config w cm
            × (manage_config_map api config w ≡ some (api.apply_config_map cm w)))
  unfolding manage_config_map
  manage_config_map_lem config w = elim (Result-cases (api.get_cluster_version w)) [
    | inr (e, failed) ↦ inl (e, no_version e failed, rw failed)
    | inl (version, read) ↦
        elim (Result-cases (api.marshal (disable_controllers api.map_order version))) [
          | inr (e, failed) ↦ inl (e, not_marshalled version e read failed, rw (read, failed))
          | inl (controllers, marshalled) ↦
              elim (Result-cases (
                api.merge_config_map
                  (api.config_map_asset "assets/openshift-controller-manager/cm.yaml") "config.yaml"
                  (layers config controllers))) [
                    | inr (e, failed) ↦ inl (
                      e,
                      not_merged version controllers e read marshalled failed,
                      rw (read, marshalled, failed),
                    )
                    | inl (required, merged) ↦
                        elim (Result-cases (api.input_hashes hashed_objects w)) [
                          | inr (e, failed) ↦ inl (
                            e,
                            not_hashed version controllers required e read marshalled merged failed,
                            rw (read, marshalled, merged, failed),
                          )
                          | inl (hashes, hashed) ↦ inr (
                            with_hashes required hashes,
                            record {
                              version = version;
                              controllers = controllers;
                              required = required;
                              hashes = hashes;
                              version_read = read;
                              marshalled = marshalled;
                              merged = merged;
                              hashed = hashed;
                              made = refl;
                            },
                            rw (read, marshalled, merged, hashed),
                          )
                        ]
                  ]
        ]
  ]

  update_if_modified-some :
      (existing : ConfigMap) (r : Bool × ConfigMap) (w : W)
      → ◌≢◌ {A = Option (Result ConfigMap × W)} (update_if_modified api existing r w) none
  update_if_modified-some existing (false, copy) w h = cc
  update_if_modified-some existing (true, copy) w h = cc

  service_ca_found-none :
      (r : Result ConfigMap) (w : W)
      → (service_ca_found api r w ≡ none) ↔ ((e : Fault) × (r ≡ err e) × (is_not_found e ≡ false))
  service_ca_found-none (ok existing) w = (
    λ h. absurd (
        update_if_modified-some existing (api.ensure_object_meta existing (service_ca_asset api)) w
          h),
    λ (e, h, _). absurd (cc),
  )
  service_ca_found-none (err e) w = elim (Bool-cases (is_not_found e)) [
    | inl missing ↦ (λ h. absurd (ground arith), λ (e', h, other). absurd (ground arith))
    | inr other ↦ (λ h. (e, refl, other), λ _. rw other)
  ]

  -- The function panics exactly if the ConfigMap cannot be read for another reason than that it is
  -- not there.
  pub manage_service_ca-none :
      (w : W)
      → (manage_service_ca api w ≡ none) ↔ (
          (e : Fault) × (api.get_config_map target_namespace "openshift-service-ca" w ≡ err e)
          × (is_not_found e ≡ false))
  unfolding manage_service_ca
  manage_service_ca-none w =
      service_ca_found-none (api.get_config_map target_namespace "openshift-service-ca" w) w
