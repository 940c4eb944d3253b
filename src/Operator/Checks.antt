-- ===== src/Operator/Checks.antt =====
-- Runs of the operator's functions in the cluster in memory, and their theorems at concrete inputs.
use cluster_openshift_contro.Common.{
  List, [], ◌∷◌, Option, none, some, Bool, true, false, ◌≡◌, ◌≢◌, ◌↔◌, ◌⊎◌, refl, arith, eq_iff,
  ◌<>◌,
}
use cluster_openshift_contro.Common.Fault.{Fault, ok}
use cluster_openshift_contro.Common.Int.{pos, positive}
use cluster_openshift_contro.Operator.Types.{
  OperatorCondition, OperatorConfig, Deployment, condition_true, condition_false,
}
use cluster_openshift_contro.Operator.Api.{find_condition}
use cluster_openshift_contro.Operator.Conditions.{set_controller_manager_status_conditions}
use cluster_openshift_contro.Operator.Conditions.Progress.{IsSettled, set_conditions-find}
use cluster_openshift_contro.Operator.Sync.{
  written, sync_return, workload_degraded_condition, route_condition_prefix,
}
use cluster_openshift_contro.Operator.Sync.Degraded.{sync_return_lem}
use cluster_openshift_contro.Operator.Sample.{
  World, world, api, api-IsLawful, absent, config, deployment,
}
use cluster_openshift_contro.Common.{lookup, assign}
use cluster_openshift_contro.Operator.Sync.{
  Images, Gathered, gather_operand, gather_route, publish, set_version, sync_to_latest,
}
use cluster_openshift_contro.Operator.Sync.Gathering.{Gathering}
use cluster_openshift_contro.Operator.Sync.Done.{sync_to_latest-false}
use cluster_openshift_contro.Operator.Sample.{set_condition_in, set_generation_in}
use cluster_openshift_contro.Operator.ConfigMaps.{
  manage_config_map, manage_client_ca, manage_service_ca, manage_global_ca, manage_route_config_map,
  manage_route_client_ca,
}
use cluster_openshift_contro.Operator.Deployments.{manage_deployment, manage_route_deployment}
use cluster_openshift_contro.Common.Fault.{Result}

abbrev rolled_out : Deployment
rolled_out = record (deployment "openshift-controller-manager" "controller-manager") {
  spec_replicas = some (pos 3);
}

upgradeable_other : "Upgradeable" ≢ "" <> "Available"
upgradeable_other e = ground (arith, eq_iff "Upgradeable" "Available")

upgradeable_third : "Upgradeable" ≢ "" <> "Progressing"
upgradeable_third e = ground (arith, eq_iff "Upgradeable" "Progressing")

set_conditions-find_example :
    (config' : OperatorConfig) × (a p : OperatorCondition)
    × (set_controller_manager_status_conditions api config rolled_out "operand" "" ≡ some config')
    × (find_condition ("" <> "Available") config'.status.conditions ≡ some a)
    × ((a.status ≡ condition_true) ↔ (positive rolled_out.available_replicas ≡ true))
    × (find_condition ("" <> "Progressing") config'.status.conditions ≡ some p)
    × ((p.status ≡ condition_false) ↔ IsSettled config rolled_out (pos 3))
    × (find_condition "Upgradeable" config'.status.conditions
        ≡ find_condition "Upgradeable" config.status.conditions)
set_conditions-find_example =
    set_conditions-find api api-IsLawful config rolled_out "operand" "" {desired = pos 3}
      "Upgradeable" refl upgradeable_other upgradeable_third

abbrev none_failed : List Fault
none_failed = []

sync_return_lem_example :
    (reported : OperatorConfig) × (workload route : OperatorCondition) × (find_condition
        workload_degraded_condition reported.status.conditions
      ≡ some workload)
    × ((workload.status ≡ condition_false) ↔ (absent ∷ [] ≡ []))
    × (find_condition (route_condition_prefix <> "Degraded") reported.status.conditions
        ≡ some route)
    × ((route.status ≡ condition_false) ↔ (none_failed ≡ []))
    × ((reported.status ≡ config.status)
          × (sync_return api (absent ∷ []) [] config config (world []) ≡ some (ok true, world []))
        ⊎ (reported.status ≢ config.status)
          × (sync_return api (absent ∷ []) [] config config (world [])
              ≡ written api true (api.update_status reported (world []))))
sync_return_lem_example = sync_return_lem api api-IsLawful (absent ∷ []) [] config config (world [])

abbrev images : Images
images = record { target = "ocm-image"; route_target = "" }

abbrev run : Option (Result Bool × World)
run = sync_to_latest api images config (world [])

abbrev after : Option (Result Bool × World) → World
after none = world []
after (some (r, w)) = w

run_done : run ≡ some (ok false, after run)
unfolding sync_to_latest gather_operand gather_route manage_config_map manage_client_ca
    manage_service_ca manage_global_ca manage_route_config_map manage_route_client_ca
    manage_deployment manage_route_deployment publish set_condition_in set_generation_in lookup
    assign set_controller_manager_status_conditions set_version
run_done = refl

sync_to_latest-false_example :
    (g r : Gathered) × (u v x : World) × (d route : Deployment) × Gathering api config
      (world [])
      u
      g
      r
    × (manage_deployment api config images.target config.status.generations g.annotations u
        ≡ some (ok d, v))
    × (manage_route_deployment api config images.route_target config.status.generations
          r.annotations v
        ≡ some (ok route, x))
    × (final : OperatorConfig) × (final.status.observed_generation ≡ config.generation)
    × (final.status.version ≡ (set_version api config d).status.version)
    × (sync_return api [] [] config final x ≡ some (ok false, after run))
sync_to_latest-false_example = sync_to_latest-false api images config (world []) run_done
