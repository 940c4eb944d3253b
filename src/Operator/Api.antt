-- ===== src/Operator/Api.antt =====
-- The API server, the listers, the assets and the functions of library-go that the operator calls.
-- `W` is the state of the cluster.
use cluster_openshift_contro.Common.{
  String, List, Option, none, some, Bool, true, Assoc, ◌≡◌, ◌↔◌, ◌==◌, ◌&&◌, if◌then◌else◌, [], ◌∷◌,
}
use cluster_openshift_contro.Common.Fault.{Fault, Result}
use cluster_openshift_contro.Common.Int.{ℤ}
use cluster_openshift_contro.Cluster.{ClusterVersion}
use cluster_openshift_contro.Operator.Types.{
  OperatorCondition, OperatorStatus, OperatorConfig, GenerationStatus, ConfigMap, Deployment, Proxy,
  ObjectRef,
}

pub record Api (W : Type 0) : Type 0 where
  -- reads
  pub get_operator_config : W → Result OperatorConfig
  pub get_cluster_version : W → Result ClusterVersion
  pub get_config_map : String → String → W → Result ConfigMap
  pub get_proxy : W → Result Proxy
  pub count_nodes : Assoc String → W → Result (Option ℤ)
  pub input_hashes : List ObjectRef → W → Result (Assoc String)
  -- writes
  pub create_config_map : ConfigMap → W → Result ConfigMap × W
  pub update_config_map : ConfigMap → W → Result ConfigMap × W
  -- resourceapply
  pub apply_config_map : ConfigMap → W → Result ConfigMap × W
  pub sync_config_map : String → String → String → String → W → Result (Option ConfigMap) × W
  pub apply_deployment : Deployment → ℤ → W → Result Deployment × W
  pub update_status : OperatorConfig → W → Option Fault × W
  -- recorder.Eventf, by its reason
  pub record_event : String → W → W
  -- the assets, and what resourceread and json make of them
  pub config_map_asset : String → ConfigMap
  pub deployment_asset : String → Deployment
  pub asset : String → String
  pub marshal : List String → Result String
  pub release_version : String
  -- resourcemerge: the layers of a configuration; whether the metadata changed, and the result
  pub merge_config_map : ConfigMap → String → List String → Result ConfigMap
  pub ensure_object_meta : ConfigMap → ConfigMap → Bool × ConfigMap
  pub merge_map : Assoc String → Assoc String → Assoc String
  pub expected_deployment_generation : Deployment → List GenerationStatus → ℤ
  pub set_deployment_generation : List GenerationStatus → Deployment → List GenerationStatus
  pub ensure_at_most_one_pod_per_node : Deployment → String → Result Deployment
  pub set_operator_condition : List OperatorCondition → OperatorCondition → List OperatorCondition
  -- equality.Semantic.DeepEqual on statuses
  pub same_status : OperatorStatus → OperatorStatus → Bool
  -- the in-place order in which Go visits the map of the controllers' capabilities
  pub map_order : List (String × String)

-- v1helpers.FindOperatorCondition
abbrev pub find_condition : String → List OperatorCondition → Option OperatorCondition
find_condition kind [] = none
find_condition kind (c ∷ cs) =
    let rest = find_condition kind cs in if c.kind == kind then some c else rest

-- What SetDeploymentGeneration records of a deployment
abbrev pub generation_of : Deployment → GenerationStatus
generation_of d = record { namespace = d.namespace; name = d.name; last_generation = d.generation }

-- resourcemerge.GenerationFor, at the deployments
abbrev pub find_generation : String → String → List GenerationStatus → Option GenerationStatus
find_generation namespace name [] = none
find_generation namespace name (g ∷ gs) =
    let rest = find_generation namespace name gs in
    if g.namespace == namespace && g.name == name then some g else rest

module _ {W : Type 0} (api : Api W) where
  open api use {set_operator_condition, set_deployment_generation, same_status}

  -- A condition that was set is found under its type, and the other types are as before; to set a
  -- condition as it is found changes nothing. The same for the generations of the deployments.
  -- Statuses count as the same only if they are, and a status is the same as itself.
  pub record IsLawful : Type 0 where
    pub find_set :
        (cs : List OperatorCondition) (c : OperatorCondition) (kind : String)
        → find_condition kind (set_operator_condition cs c)
          ≡ (if c.kind == kind then some c else find_condition kind cs)
    pub set_same :
        (cs : List OperatorCondition) (c : OperatorCondition)
        → find_condition c.kind cs ≡ some c
        → set_operator_condition cs c ≡ cs
    pub find_set_generation :
        (gs : List GenerationStatus) (d : Deployment) (namespace name : String)
        → find_generation namespace name (set_deployment_generation gs d) ≡ (
            if d.namespace == namespace && d.name == name
            then some (generation_of d)
            else find_generation namespace name gs)
    pub set_same_generation :
        (gs : List GenerationStatus) (d : Deployment)
        → find_generation d.namespace d.name gs ≡ some (generation_of d)
        → set_deployment_generation gs d ≡ gs
    pub same_status_iff : (a b : OperatorStatus) → (same_status a b ≡ true) ↔ (a ≡ b)
