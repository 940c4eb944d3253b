-- ===== src/Operator/Types.antt =====
-- The API objects of the operator, with the fields that it reads or writes.
use cluster_openshift_contro.Common.{String, List, Option, Assoc}
use cluster_openshift_contro.Common.Int.{ℤ}

-- operatorapiv1.ConditionTrue and ConditionFalse
pub data ConditionStatus : Type 0 where
  condition_true condition_false : ConditionStatus

-- operatorapiv1.OperatorCondition; the transition time is set by library-go
pub record OperatorCondition : Type 0 where
  pub kind : String
  pub status : ConditionStatus
  pub reason : String
  pub message : String

-- operatorapiv1.GenerationStatus
pub record GenerationStatus : Type 0 where
  pub namespace : String
  pub name : String
  pub last_generation : ℤ

pub record OperatorStatus : Type 0 where
  pub observed_generation : ℤ
  pub conditions : List OperatorCondition
  pub version : String
  pub generations : List GenerationStatus

-- operatorapiv1.OpenShiftControllerManager: the generation, the spec and the status. The two
-- configurations are raw JSON.
pub record OperatorConfig : Type 0 where
  pub generation : ℤ
  pub log_level : String
  pub observed_config : String
  pub unsupported_config_overrides : String
  pub status : OperatorStatus

pub record ConfigMap : Type 0 where
  pub namespace : String
  pub name : String
  pub resource_version : String
  pub annotations : Assoc String
  pub contents : Assoc String

pub record EnvVar : Type 0 where
  pub name : String
  pub content : String

pub record Container : Type 0 where
  pub image : String
  pub args : List String
  pub env : List EnvVar

-- appsv1.Deployment. The pod template of the operands has a first container.
pub record Deployment : Type 0 where
  pub namespace : String
  pub name : String
  pub generation : ℤ
  pub annotations : Assoc String
  pub spec_replicas : Option ℤ
  pub template_annotations : Assoc String
  pub node_selector : Assoc String
  pub first_container : Container
  pub more_containers : List Container
  pub available_replicas : ℤ
  pub updated_replicas : ℤ
  pub status_replicas : ℤ
  pub observed_generation : ℤ

-- configv1.Proxy, its status
pub record Proxy : Type 0 where
  pub http_proxy : String
  pub https_proxy : String
  pub no_proxy : String

-- resourcehash.ObjectReference
pub data ObjectRef : Type 0 where
  config_map_ref secret_ref : String → String → ObjectRef
