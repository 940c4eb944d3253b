-- ===== src/Operator/Conditions.antt =====
-- `setControllerManagerStatusConditions` of
-- pkg/operator/sync_openshiftcontrollermanager_v311_00.go.
pub mod Progress
pub mod Merging
use cluster_openshift_contro.Common.{
  String, List, [], ◌∷◌, ◌++◌, Option, none, some, Bool, true, false, not, ◌==◌, ◌&&◌, ◌<>◌,
  if◌then◌else◌, is_empty, get,
}
use cluster_openshift_contro.Common.Int.{ℤ, pos, int_eq, positive, decimal}
use cluster_openshift_contro.Names.{version_annotation}
use cluster_openshift_contro.Operator.Types.{
  ConditionStatus, condition_true, condition_false, OperatorCondition, OperatorConfig, Deployment,
}
use cluster_openshift_contro.Operator.Api.{Api}

abbrev pub message_if : Bool → String → List String
message_if test message = if test then message ∷ [] else []

abbrev pub available : Deployment → Bool
available d = positive d.available_replicas

abbrev pub version_of : Deployment → String
version_of d = get version_annotation d.annotations

-- available && UpdatedReplicas == Replicas: is the version annotation there, and the right one?
unfoldable pub version_messages : OperatorConfig → Deployment → List String
version_messages config d =
    if available d && int_eq d.updated_replicas d.status_replicas
    then if is_empty (version_of d)
      then ("deployment/" <> d.name <> ": version annotation " <> version_annotation <> " missing")
        ∷ []
      else message_if
          (not (is_empty config.status.version) && not (config.status.version == version_of d))
          ("deployment/" <> d.name <> ": has invalid version annotation " <> version_annotation
            <> ", desired version " <> config.status.version)
    else []

-- The messages of the progressing condition; `desired` is *deployment.Spec.Replicas.
unfoldable pub progressing_messages : OperatorConfig → Deployment → ℤ → List String
unfolding version_messages
progressing_messages config d desired =
    version_messages config d
    ++ (message_if (not (int_eq d.generation d.observed_generation)) (
          "deployment/"
          <> d.name
          <> ": observed generation is "
          <> decimal d.observed_generation
          <> ", desired generation is "
          <> decimal d.generation)
        ++ (message_if (int_eq d.available_replicas (pos 0))
              ("deployment/" <> d.name <> ": no available replica found")
            ++ (message_if (not (int_eq d.updated_replicas desired)) (
                  "deployment/"
                  <> d.name
                  <> ": updated replicas is "
                  <> decimal d.updated_replicas
                  <> ", desired replicas is "
                  <> decimal desired)
                ++ message_if (not (int_eq config.generation config.status.observed_generation)) (
                    "openshiftcontrollermanagers.operator.openshift.io/cluster: observed generation is "
                    <> decimal config.status.observed_generation
                    <> ", desired generation is "
                    <> decimal config.generation))))

-- strings.Join(_, "\n")
unfoldable pub join_lines : List String → String
join_lines [] = ""
join_lines (m ∷ []) = m
join_lines (m ∷ n ∷ ms) = m <> ("\n" <> join_lines (n ∷ ms))

abbrev pub condition : String → ConditionStatus → String → String → OperatorCondition
condition kind status reason message = record {
  kind = kind;
  status = status;
  reason = reason;
  message = message;
}

unfoldable pub available_condition : Deployment → String → String → OperatorCondition
available_condition d readable_name prefix =
    if available d
    then condition (prefix <> "Available") condition_true "" ""
    else condition (prefix <> "Available") condition_false "NoPodsAvailable"
        ("no " <> readable_name <> " deployment pods available on any node")

unfoldable pub progressing_condition : List String → String → OperatorCondition
progressing_condition [] prefix = condition (prefix <> "Progressing") condition_false "" ""
progressing_condition (m ∷ ms) prefix =
    condition (prefix <> "Progressing") condition_true "DesiredStateNotYetAchieved"
      (join_lines (m ∷ ms))

module _ {W : Type 0} (api : Api W) where
  abbrev pub set_condition : OperatorCondition → OperatorConfig → OperatorConfig
  set_condition c config = record config {
    status = record config.status {
      conditions = api.set_operator_condition config.status.conditions c;
    };
  }

  abbrev pub with_replicas :
      OperatorConfig → Deployment → String → String → Option ℤ → Option OperatorConfig
  with_replicas config d readable_name prefix none = none
  with_replicas config d readable_name prefix (some desired) =
      let config' = set_condition (available_condition d readable_name prefix) config in
      some (
        set_condition (progressing_condition (progressing_messages config' d desired) prefix)
          config')

  -- `none` is the panic at a nil Spec.Replicas.
  unfoldable pub set_controller_manager_status_conditions :
      OperatorConfig → Deployment → String → String → Option OperatorConfig
  unfolding available_condition progressing_condition progressing_messages
  set_controller_manager_status_conditions config d readable_name prefix =
      with_replicas config d readable_name prefix d.spec_replicas
