-- ===== src/Observe/Listers.antt =====
-- pkg/operator/configobservation/interfaces.go: the listers that the observers read from. `Json` is
-- the type of the elements of lists, `Network` that of the network configuration.
use cluster_openshift_contro.Common.{String, List, Option, Assoc, Bool}
use cluster_openshift_contro.Cluster.{Lister, ClusterVersion, ClusterOperator}

-- configv1.Image, its status
pub record ImageConfig : Type 0 where
  pub internal_registry_hostname : String
  pub external_registry_hostnames : List String

-- configv1.Build, its spec, over the type of the values that are encoded as JSON
pub record BuildConfig (Json : Type 0) : Type 0 where
  pub default_env : List Json
  pub default_image_labels : List Json
  pub default_resources : Json
  pub override_image_labels : List Json
  pub override_node_selector : Assoc String
  pub override_tolerations : List Json
  pub override_force_pull : Option Bool

pub record Listers (Json Network : Type 0) : Type 0 where
  pub image_config_lister : Lister ImageConfig
  pub build_config_lister : Lister (BuildConfig Json)
  -- by namespace and name, the data of the ConfigMap
  pub config_map_lister : String → Lister (Assoc String)
  pub network_lister : Lister Network
  pub cluster_version_lister : Lister ClusterVersion
  pub cluster_operator_lister : Lister ClusterOperator
