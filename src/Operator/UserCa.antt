-- ===== src/Operator/UserCa.antt =====
-- pkg/operator/usercaobservation/user_ca_observation_controller.go. The operator client, the lister
-- and the resource syncer of library-go are a parameter.
pub mod Outcome
use cluster_openshift_contro.Common.{
  String, Option, none, some, Bool, true, false, if◌then◌else◌, is_empty,
}
use cluster_openshift_contro.Common.Fault.{Fault, Result, ok, err, is_not_found}
use cluster_openshift_contro.Names.{target_namespace, user_specified_global_config_namespace}

-- resourcesynccontroller.ResourceLocation
pub record ResourceLocation : Type 0 where
  pub namespace : String
  pub name : String
  pub provider : String

abbrev pub location : String → String → String → ResourceLocation
location namespace name provider = record {
  namespace = namespace;
  name = name;
  provider = provider;
}

abbrev pub nowhere : ResourceLocation
nowhere = location "" "" ""

pub record Client (W : Type 0) : Type 0 where
  -- the management state of the operator's spec, and management.IsOperatorManaged
  pub get_operator_state : W → Result String
  pub is_managed : String → Bool
  -- the name of the trusted CA of the proxy "cluster"
  pub get_proxy : W → Result String
  -- resourceSyncer.SyncConfigMap(destination, source)
  pub sync_config_map : ResourceLocation → ResourceLocation → W → Option Fault × W

abbrev pub source_named : String → ResourceLocation
source_named name =
    if is_empty name then nowhere else location user_specified_global_config_namespace name ""

unfoldable pub find_proxy_ca_source : Result String → Result ResourceLocation
find_proxy_ca_source (err e) = if is_not_found e then ok nowhere else err e
find_proxy_ca_source (ok name) = ok (source_named name)

abbrev pub user_ca : ResourceLocation
user_ca = location target_namespace "openshift-user-ca" "openshift-controller-manager-operator"

module _ {W : Type 0} (client : Client W) where
  abbrev pub sync_source : Result ResourceLocation → W → Option Fault × W
  sync_source (err e) w = (some e, w)
  sync_source (ok source) w = client.sync_config_map user_ca source w

  abbrev pub sync_managed : Result String → W → Option Fault × W
  sync_managed (err e) w = (none, w)
  sync_managed (ok state) w =
      if client.is_managed state
      then sync_source (find_proxy_ca_source (client.get_proxy w)) w
      else (none, w)

  unfoldable pub sync : W → Option Fault × W
  unfolding find_proxy_ca_source
  sync w = sync_managed (client.get_operator_state w) w
