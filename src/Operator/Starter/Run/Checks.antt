-- ===== src/Operator/Starter/Run/Checks.antt =====
-- RunOperator in a cluster that gets the capability Build while it runs, and its lists.
use cluster_openshift_contro.Common.{
  ℕ, String, List, [], ◌∷◌, some, true, false, ◌≡◌, ◌⊎◌, refl, not, ◌&&◌, any, all, ltb, member,
  if◌then◌else◌,
}
use cluster_openshift_contro.Common.Fault.{Fault, ok, err, errorf}
use cluster_openshift_contro.Common.Int.{pos}
use cluster_openshift_contro.Cluster.{ClusterVersion, capability_enabled}
use cluster_openshift_contro.Names.{
  capability_build, target_namespace, route_controller_target_namespace, operator_namespace,
}
use cluster_openshift_contro.Operator.Starter.Run.{
  Environment, Started, feature_gate_accessor, config_informers, run_operator, high_rate_limits,
}
use cluster_openshift_contro.Operator.Starter.Run.Order.{
  IsReady, everything, shows_build, run_operator_lem,
}
use cluster_openshift_contro.Operator.Starter.Run.Resources.{
  kube_informer_namespaces, static_resources, removed_resources,
}

abbrev version : List String → ClusterVersion
version enabled = record { known_capabilities = "Build" ∷ []; enabled_capabilities = enabled }

abbrev pub environment : Environment ℕ
environment = record {
  less_qps = ltb;
  fifty = 50;
  proto_limits = record { qps = 5; burst = pos 200 };
  kube_client = λ limits. ok tt;
  operator_client = ok tt;
  config_client = ok tt;
  gates_observed = true;
  caches_synced = true;
  cluster_version = ok (version []);
  ticks = err (errorf "not synced") ∷ ok (version ("Build" ∷ [])) ∷ [];
}

raised : high_rate_limits environment ≡ record { qps = 50; burst = pos 200 }
unfolding high_rate_limits
raised = refl

abbrev late : Environment ℕ
late = record environment { gates_observed = false }

started_early :
    run_operator late []
    ≡ some (
      err (errorf "timed out waiting for FeatureGate detection"),
      feature_gate_accessor ∷ config_informers ∷ [],
    )
unfolding run_operator
started_early = refl

-- The namespaces whose informers the code takes are among those that there are informers for.
namespaces_cached :
    all
      (λ namespace. member namespace kube_informer_namespaces)
      ("" ∷ target_namespace ∷ route_controller_target_namespace ∷ operator_namespace ∷ [])
    ≡ true
namespaces_cached = refl

-- No manifest is both kept and removed.
kept_apart : any (λ name. member name static_resources) removed_resources ≡ false
kept_apart = refl

run_operator_lem_example :
    (e : Fault) × (started : List Started) × (run_operator environment [] ≡ some (err e, started))
    × (((started ≡ []) ⊎ (started ≡ feature_gate_accessor ∷ config_informers ∷ []))
          × ¬ ((cv : ClusterVersion) × IsReady environment cv)
        ⊎ ((cv : ClusterVersion) × IsReady environment cv
            × (started ≡ everything (capability_enabled capability_build cv))
            × (e ≡ (
                if not (capability_enabled capability_build cv) && any shows_build environment.ticks
                then errorf "capability is enabled, stopping"
                else errorf "stopped"))))
run_operator_lem_example = run_operator_lem environment
