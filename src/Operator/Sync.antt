-- ===== src/Operator/Sync.antt =====
-- `syncOpenShiftControllerManager_v311_00_to_latest` and `syncReturn` of
-- pkg/operator/sync_openshiftcontrollermanager_v311_00.go.
pub mod Degraded
pub mod Gathering
pub mod Rollout
pub mod RolloutChecks
pub mod Done
pub mod Settling
pub mod Checks
use cluster_openshift_contro.Common.{
  String, List, [], ◌∷◌, ◌++◌, Option, none, some, Bool, true, false, not, ◌==◌, ◌&&◌, ◌||◌, ◌<>◌,
  quote, if◌then◌else◌, is_empty, get, assign, Assoc,
}
use cluster_openshift_contro.Common.Fault.{Fault, Result, ok, err, wrap, describe}
use cluster_openshift_contro.Common.Int.{ℤ, int_eq, positive, decimal}
use cluster_openshift_contro.Common.Effect.{Act, pure, fail, crash, attempt, ◌>>=◌}
use cluster_openshift_contro.Names.{version_annotation}
use cluster_openshift_contro.Operator.Types.{
  condition_true, condition_false, OperatorCondition, OperatorConfig, ConfigMap, Deployment,
}
use cluster_openshift_contro.Operator.Api.{Api}
use cluster_openshift_contro.Operator.ConfigMaps.{
  manage_client_ca, manage_route_client_ca, manage_config_map, manage_route_config_map,
  manage_service_ca, manage_global_ca,
}
use cluster_openshift_contro.Operator.Deployments.{manage_deployment, manage_route_deployment}
use cluster_openshift_contro.Operator.Conditions.{
  available, version_of, condition, set_condition, set_controller_manager_status_conditions,
}

abbrev pub operand_name : String
operand_name = "openshift-controller-manager"

abbrev pub route_operand_name : String
route_operand_name = "route-controller-manager"

abbrev pub route_condition_prefix : String
route_condition_prefix = "RouteControllerManager"

abbrev pub workload_degraded_condition : String
workload_degraded_condition = "WorkloadDegraded"

-- The images that the operator is started with.
pub record Images : Type 0 where
  pub target : String
  pub route_target : String

-- Each error on a line of its own.
unfoldable pub error_lines : List Fault → String
error_lines [] = ""
error_lines (e ∷ es) = e.text <> ("\n" <> error_lines es)

-- The closure `setDegraded`.
unfoldable pub degraded_condition : List Fault → String → OperatorCondition
unfolding error_lines
degraded_condition [] kind = condition kind condition_false "" ""
degraded_condition (e ∷ es) kind = condition kind condition_true "SyncError" (error_lines (e ∷ es))

abbrev pub is_nonempty : List Fault → Bool
is_nonempty [] = false
is_nonempty (e ∷ es) = true

-- What a sync has gathered for one operand.
pub record Gathered : Type 0 where
  pub errors : List Fault
  pub annotations : Assoc String

abbrev pub context : String → String → String
context operand part = quote operand <> (" " <> (quote part <> ": "))

-- `resourceVersion` of a ConfigMap that can be nil
abbrev pub version_or_zero : Option ConfigMap → String
version_or_zero none = "0"
version_or_zero (some cm) = cm.resource_version

abbrev pub add_error : Fault → Gathered → Gathered
add_error e g = record g { errors = g.errors ++ e ∷ [] }

abbrev pub annotate : String → String → Gathered → Gathered
annotate key version g = record g { annotations = assign key version g.annotations }

abbrev pub gather : (Fault → Fault) → String → Result ConfigMap → Gathered → Gathered
gather f key (ok cm) g = annotate key cm.resource_version g
gather f key (err e) g = add_error (f e) g

abbrev pub gather_optional :
    (Fault → Fault) → String → Result (Option ConfigMap) → Gathered → Gathered
gather_optional f key (ok cm) g = annotate key (version_or_zero cm) g
gather_optional f key (err e) g = add_error (f e) g

abbrev pub gather_deployment : (Fault → Fault) → Result Deployment → Gathered → Gathered
gather_deployment f (ok d) g = g
gather_deployment f (err e) g = add_error (f e) g

module _ {W : Type 0} (api : Api W) where
  abbrev pub written : Bool → Option Fault × W → Option (Result Bool × W)
  written requeue (none, w) = some (ok requeue, w)
  written requeue (some e, w) = some (err e, w)

  abbrev pub set_degraded : List Fault → List Fault → OperatorConfig → OperatorConfig
  set_degraded errors route_errors config =
      set_condition api (degraded_condition route_errors (route_condition_prefix <> "Degraded"))
        (set_condition api (degraded_condition errors workload_degraded_condition) config)

  -- The status is written if it changed. The result asks for another sync if there were errors.
  unfoldable pub sync_return :
      List Fault → List Fault → OperatorConfig → OperatorConfig → Act W Bool
  unfolding degraded_condition
  sync_return errors route_errors original config w =
      let config' = set_degraded errors route_errors config in
      let requeue = is_nonempty errors || is_nonempty route_errors in
      if api.same_status config'.status original.status
      then some (ok requeue, w)
      else written requeue (api.update_status config' w)

  -- The version of a deployment whose replicas are available and all updated is the operator's.
  unfoldable pub set_version : OperatorConfig → Deployment → OperatorConfig
  set_version config d =
      if available d && int_eq d.updated_replicas d.status_replicas && not (is_empty (version_of d))
      then record config { status = record config.status { version = version_of d } }
      else config

  abbrev pub both_conditions :
      OperatorConfig → Deployment → Option OperatorConfig → Option OperatorConfig
  both_conditions config route none = none
  both_conditions config route (some c) =
      set_controller_manager_status_conditions api c route "route controller manager"
        route_condition_prefix

  -- The Upgradeable condition, the observed generation and those of the two deployments.
  abbrev pub seal : Deployment → Deployment → OperatorConfig → OperatorConfig
  seal d route config =
      let config' = set_condition api (condition "Upgradeable" condition_true "" "") config in
      record config' {
        status = record config'.status {
          observed_generation = config.generation;
          generations =
              api.set_deployment_generation
                (api.set_deployment_generation config.status.generations d) route;
        };
      }

  abbrev pub return_with :
      Gathered
      → Gathered
      → Deployment
      → Deployment
      → OperatorConfig
      → Option OperatorConfig
      → Act W Bool
  return_with g r d route original none w = none
  return_with g r d route original (some config) w =
      sync_return g.errors r.errors original (seal d route config) w

  -- Both deployments were applied.
  unfoldable pub publish :
      Gathered → Gathered → Deployment → Deployment → OperatorConfig → Act W Bool
  unfolding set_version sync_return
  publish g r d route config = return_with g r d route config (
      both_conditions config route (
        set_controller_manager_status_conditions api (set_version config d) d
          "openshift controller manager" ""))

  abbrev pub finish_sync :
      Gathered → Gathered → OperatorConfig → Result Deployment → Result Deployment → Act W Bool
  finish_sync g r config (ok d) (ok route) w = publish g r d route config w
  finish_sync g r config (ok d) (err e) w = sync_return g.errors r.errors config config w
  finish_sync g r config (err e) route w = sync_return g.errors r.errors config config w

  abbrev pub initial : OperatorConfig → Gathered
  initial config = record {
    errors = [];
    annotations =
        ("openshiftcontrollermanagers.operator.openshift.io/cluster", decimal config.generation)
        ∷ [];
  }

  -- The ConfigMaps of the openshift controller manager.
  unfoldable pub gather_operand : OperatorConfig → Act W Gathered
  gather_operand config = do
    config_map ← attempt (manage_config_map api config)
    client_ca ← attempt (manage_client_ca api)
    service_ca ← attempt (manage_service_ca api)
    global_ca ← attempt (manage_global_ca api)
    pure (
        gather (describe (context operand_name "openshift-global-ca"))
          "configmaps/openshift-global-ca" global_ca
          (gather (describe (context operand_name "openshift-service-ca"))
            "configmaps/openshift-service-ca" service_ca
            (gather_optional (describe (context operand_name "client-ca")) "configmaps/client-ca"
              client_ca
              (gather (wrap (context operand_name "config")) "configmaps/config" config_map
                (initial config)))))

  -- Those of the route controller manager.
  unfoldable pub gather_route : OperatorConfig → Act W Gathered
  gather_route config = do
    config_map ← attempt (manage_route_config_map api config)
    client_ca ← attempt (manage_route_client_ca api)
    pure (
        gather_optional (describe (context route_operand_name "client-ca")) "configmaps/client-ca"
          client_ca
          (gather (describe (context route_operand_name "configmap")) "configmaps/config" config_map
            (initial config)))

  unfoldable pub sync_to_latest : Images → OperatorConfig → Act W Bool
  sync_to_latest images config = do
    g ← gather_operand config
    r ← gather_route config
    d ← attempt (manage_deployment api config images.target config.status.generations g.annotations)
    route ← attempt (
        manage_route_deployment api config images.route_target config.status.generations
          r.annotations)
    finish_sync (gather_deployment (describe (context operand_name "deployment")) d g)
        (gather_deployment (describe (context route_operand_name "deployment")) route r) config d
        route
