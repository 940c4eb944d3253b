-- ===== src/Operator/ConfigMaps.antt =====
-- The functions `manage...ConfigMap...` and `manage...ClientCA...` of
-- pkg/operator/sync_openshiftcontrollermanager_v311_00.go.
pub mod Outcomes
pub mod Checks
use cluster_openshift_contro.Common.{
  String, List, [], ◌∷◌, ◌++◌, Option, none, some, Bool, true, false, Assoc, assign, ◌<>◌,
  if◌then◌else◌,
}
use cluster_openshift_contro.Common.Fault.{Fault, Result, ok, err, is_not_found}
use cluster_openshift_contro.Common.Effect.{Act, pure, fail, crash, call, read, lift, ◌>>=◌, ◌>>◌}
use cluster_openshift_contro.Names.{
  kube_apiserver_namespace, target_namespace, route_controller_target_namespace,
}
use cluster_openshift_contro.Operator.Types.{
  OperatorConfig, ConfigMap, ObjectRef, config_map_ref, secret_ref,
}
use cluster_openshift_contro.Operator.Api.{Api}
use cluster_openshift_contro.Operator.Capabilities.{disable_controllers}

-- for k, v := range inputHashes { requiredConfigMap.Data[k] = v }
unfoldable pub add_hashes : Assoc String → Assoc String → Assoc String
add_hashes [] contents = contents
add_hashes ((k, v) ∷ hashes) contents = add_hashes hashes (assign k v contents)

abbrev pub with_hashes : ConfigMap → Assoc String → ConfigMap
with_hashes cm hashes = record cm { contents = add_hashes hashes cm.contents }

module _ {W : Type 0} (api : Api W) where
  unfoldable pub manage_client_ca : Act W (Option ConfigMap)
  manage_client_ca =
      call (api.sync_config_map kube_apiserver_namespace "client-ca" target_namespace "client-ca")

  unfoldable pub manage_route_client_ca : Act W (Option ConfigMap)
  manage_route_client_ca = call (
      api.sync_config_map kube_apiserver_namespace "client-ca" route_controller_target_namespace
        "client-ca")

  abbrev pub controllers_config : String → String
  controllers_config controllers =
      "{\"apiVersion\": \"openshiftcontrolplane.config.openshift.io/v1\", \"kind\": \"OpenShiftControllerManagerConfig\", \"controllers\": "
      <> controllers <> "}"

  unfoldable pub manage_config_map : OperatorConfig → Act W ConfigMap
  unfolding add_hashes disable_controllers
  manage_config_map config = do
    version ← read api.get_cluster_version
    controllers ← lift (api.marshal (disable_controllers api.map_order version))
    required ← lift (
        api.merge_config_map (api.config_map_asset "assets/openshift-controller-manager/cm.yaml")
          "config.yaml"
          (api.asset "assets/config/openshift-controller-manager-defaultconfig.yaml"
            ∷ controllers_config controllers
            ∷ config.observed_config
            ∷ config.unsupported_config_overrides
            ∷ []))
    hashes ← read (
        api.input_hashes (
          config_map_ref target_namespace "client-ca"
          ∷ secret_ref target_namespace "serving-cert"
          ∷ config_map_ref target_namespace "openshift-global-ca"
          ∷ config_map_ref target_namespace "openshift-user-ca"
          ∷ []))
    call (api.apply_config_map (with_hashes required hashes))

  unfoldable pub manage_route_config_map : OperatorConfig → Act W ConfigMap
  unfolding add_hashes
  manage_route_config_map config = do
    required ← lift (
        api.merge_config_map
          (api.config_map_asset
            "assets/openshift-controller-manager/route-controller-manager-cm.yaml")
          "config.yaml"
          (api.asset "assets/config/route-controller-manager-defaultconfig.yaml"
            ∷ config.observed_config
            ∷ config.unsupported_config_overrides
            ∷ []))
    hashes ← read (
        api.input_hashes (
          config_map_ref route_controller_target_namespace "client-ca"
          ∷ secret_ref route_controller_target_namespace "serving-cert"
          ∷ []))
    call (api.apply_config_map (with_hashes required hashes))

  -- The event that follows a write.
  abbrev pub with_event : String → String → Result ConfigMap × W → Result ConfigMap × W
  with_event done failed (ok cm, w) = (ok cm, api.record_event done w)
  with_event done failed (err e, w) = (err e, api.record_event failed w)

  abbrev pub service_ca_asset : ConfigMap
  service_ca_asset =
      api.config_map_asset "assets/openshift-controller-manager/openshift-service-ca-cm.yaml"

  abbrev pub update_if_modified : ConfigMap → Bool × ConfigMap → Act W ConfigMap
  update_if_modified existing (false, copy) = pure existing
  update_if_modified existing (true, copy) =
      call
        (λ w. with_event "ConfigMapUpdated" "ConfigMapUpdateFailed" (api.update_config_map copy w))

  -- An error other than NotFound is not looked at: the ConfigMap that came with it is nil, and its
  -- metadata is then read, which panics.
  abbrev pub service_ca_found : Result ConfigMap → Act W ConfigMap
  service_ca_found (err e) =
      if is_not_found e
      then call (λ w.
        with_event "ConfigMapCreated" "ConfigMapCreateFailed"
          (api.create_config_map service_ca_asset w))
      else crash
  service_ca_found (ok existing) =
      update_if_modified existing (api.ensure_object_meta existing service_ca_asset)

  unfoldable pub manage_service_ca : Act W ConfigMap
  manage_service_ca w =
      service_ca_found (api.get_config_map target_namespace "openshift-service-ca" w) w

  unfoldable pub manage_global_ca : Act W ConfigMap
  manage_global_ca = call (
      api.apply_config_map
        (api.config_map_asset "assets/openshift-controller-manager/openshift-global-ca-cm.yaml"))
