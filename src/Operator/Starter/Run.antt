-- ===== src/Operator/Starter/Run.antt =====
-- `RunOperator` of pkg/operator/starter.go: what it waits for, what it starts, in its order, and why
-- it returns. What the controllers do is the subject of their own modules.
pub mod Resources
pub mod Order
pub mod Watches
pub mod WatchesChecks
pub mod Syncing
pub mod SyncingChecks
pub mod Checks
use cluster_openshift_contro.Common.{
  String, List, [], ◌∷◌, ◌++◌, Option, none, some, Bool, true, false, not, ◌&&◌, if◌then◌else◌,
}
use cluster_openshift_contro.Common.Fault.{Fault, Result, ok, err, errorf}
use cluster_openshift_contro.Common.Int.{ℤ, pos, int_less}
use cluster_openshift_contro.Common.Effect.{Act, pure, fail, lift, ◌>>=◌, ◌>>◌}
use cluster_openshift_contro.Cluster.{ClusterVersion}
use cluster_openshift_contro.Operator.Starter.{build_capability_enabled, capability_changed}

-- rest.Config, the limits of the client: QPS is a float32, of which `Q` is the type.
pub record Limits (Q : Type 0) : Type 0 where
  pub qps : Q
  pub burst : ℤ

abbrev raise_to : {A : Type 0} → (A → A → Bool) → A → A → A
raise_to less minimum x = if less x minimum then minimum else x

-- What the process finds: whether the clients can be made, whether the feature gates were observed
-- within the minute and the cache of the ClusterVersions was synced, the ClusterVersion at the start,
-- and the answers of its lister at the ticks before the context ends.
pub record Environment (Q : Type 0) : Type 0 where
  pub less_qps : Q → Q → Bool
  pub fifty : Q
  pub proto_limits : Limits Q
  pub kube_client : Limits Q → Result (Unit {0})
  pub operator_client : Result (Unit {0})
  pub config_client : Result (Unit {0})
  pub gates_observed : Bool
  pub caches_synced : Bool
  pub cluster_version : Result ClusterVersion
  pub ticks : List (Result ClusterVersion)

-- What is started, the configuration observer with or without the observer of builds.
pub data Started : Type 0 where
  feature_gate_accessor config_informers daemon_set_cleanup operator_config_informers kube_informers
        static_resource_controller operator_controller resource_syncer user_ca_observer
        cluster_operator_status log_level_controller image_pull_secret_cleanup capability_checker :
      Started
  config_observer : Bool → Started

abbrev pub gates_timeout : String
gates_timeout = "timed out waiting for FeatureGate detection"

abbrev pub caches_timeout : String
caches_timeout = "timed out waiting for configInformers ClusterVersions"

module _ {Q : Type 0} (env : Environment Q) where
  -- highRateLimitProtoKubeConfig
  unfoldable pub high_rate_limits : Limits Q
  high_rate_limits = record {
    qps = raise_to env.less_qps env.fifty env.proto_limits.qps;
    burst = raise_to int_less (pos 100) env.proto_limits.burst;
  }

  abbrev pub start : List Started → Act (List Started) (Unit {0})
  start more started = some (ok tt, started ++ more)

  abbrev pub require : Bool → String → Act (List Started) (Unit {0})
  require test message = if test then pure tt else fail (errorf message)

  abbrev pub controllers : Bool → List Started
  controllers build_enabled =
      daemon_set_cleanup
      ∷ operator_config_informers
      ∷ kube_informers
      ∷ config_informers
      ∷ static_resource_controller
      ∷ operator_controller
      ∷ resource_syncer
      ∷ config_observer build_enabled
      ∷ user_ca_observer
      ∷ cluster_operator_status
      ∷ log_level_controller
      ∷ image_pull_secret_cleanup
      ∷ (if build_enabled then [] else capability_checker ∷ [])

  -- The last select.
  abbrev pub stop_reason : Bool → Fault
  stop_reason build_enabled =
      if not build_enabled && capability_changed env.ticks
      then errorf "capability is enabled, stopping"
      else errorf "stopped"

  abbrev pub new_clients : Act (List Started) (Unit {0})
  new_clients = do
    _ ← lift (env.kube_client (high_rate_limits))
    _ ← lift env.operator_client
    lift env.config_client

  abbrev pub wait_for_gates : Act (List Started) (Unit {0})
  wait_for_gates = do
    _ ← start (feature_gate_accessor ∷ config_informers ∷ [])
    require env.gates_observed gates_timeout

  -- The ClusterVersion, once its cache is synced.
  abbrev pub wait_for_version : Act (List Started) ClusterVersion
  wait_for_version = do _ ← require env.caches_synced caches_timeout; lift env.cluster_version

  unfoldable pub run_operator : Act (List Started) (Unit {0})
  unfolding build_capability_enabled capability_changed high_rate_limits
  run_operator = do
    _ ← new_clients
    _ ← wait_for_gates
    cv ← wait_for_version
    _ ← start (controllers (build_capability_enabled cv))
    fail (stop_reason (build_capability_enabled cv))
