-- ===== src/Operator/Starter/Run/Resources.antt =====
-- The lists of `RunOperator` in pkg/operator/starter.go: the namespaces whose objects are cached, the
-- objects that the ClusterOperator points to, and the static resources.
use cluster_openshift_contro.Common.{String, List, [], ◌∷◌, map, ◌<>◌}
use cluster_openshift_contro.Names.{
  target_namespace, route_controller_target_namespace, operator_namespace, infra_namespace,
  user_specified_global_config_namespace, machine_specified_global_config_namespace,
}

-- The empty name stands for the resources of the cluster; kube-system is metav1.NamespaceSystem.
abbrev pub kube_informer_namespaces : List String
kube_informer_namespaces =
    "" ∷ target_namespace ∷ route_controller_target_namespace ∷ operator_namespace
    ∷ user_specified_global_config_namespace ∷ infra_namespace ∷ "kube-system" ∷ []

-- configv1.ObjectReference
pub record ObjectReference : Type 0 where
  pub group : String
  pub resource : String
  pub name : String

abbrev namespace_reference : String → ObjectReference
namespace_reference name = record { group = ""; resource = "namespaces"; name = name }

abbrev pub related_objects : List ObjectReference
related_objects =
    record {
      group = "operator.openshift.io";
      resource = "openshiftcontrollermanagers";
      name = "cluster";
    }
    ∷ namespace_reference user_specified_global_config_namespace
    ∷ namespace_reference machine_specified_global_config_namespace
    ∷ namespace_reference operator_namespace
    ∷ namespace_reference target_namespace
    ∷ namespace_reference route_controller_target_namespace
    ∷ []

abbrev assets : List String → List String
assets names = map (λ name. "assets/openshift-controller-manager/" <> (name <> ".yaml")) names

-- The manifests that StaticResourceController keeps in the cluster.
abbrev pub static_resources : List String
static_resources = assets (
    "informer-clusterrole" ∷ "informer-clusterrolebinding" ∷ "tokenreview-clusterrole"
    ∷ "tokenreview-clusterrolebinding" ∷ "leader-role" ∷ "leader-rolebinding" ∷ "ns"
    ∷ "route-controller-manager-clusterrole" ∷ "route-controller-manager-clusterrolebinding"
    ∷ "route-controller-manager-leader-role" ∷ "route-controller-manager-leader-rolebinding"
    ∷ "route-controller-manager-ns" ∷ "route-controller-manager-sa"
    ∷ "route-controller-manager-separate-sa-role"
    ∷ "route-controller-manager-separate-sa-rolebinding"
    ∷ "route-controller-manager-servicemonitor-role"
    ∷ "route-controller-manager-servicemonitor-rolebinding" ∷ "route-controller-manager-svc"
    ∷ "route-controller-manager-tokenreview-clusterrole"
    ∷ "route-controller-manager-tokenreview-clusterrolebinding" ∷ "route-controller-manager-svc"
    ∷ "route-controller-manager-ingress-to-route-controller-clusterrole"
    ∷ "route-controller-manager-ingress-to-route-controller-clusterrolebinding" ∷ "separate-sa-role"
    ∷ "separate-sa-rolebinding" ∷ "sa" ∷ "svc" ∷ "servicemonitor-role"
    ∷ "servicemonitor-rolebinding" ∷ "buildconfigstatus-clusterrole"
    ∷ "buildconfigstatus-clusterrolebinding" ∷ "deployer-clusterrole"
    ∷ "deployer-clusterrolebinding" ∷ "image-trigger-controller-clusterrole"
    ∷ "image-trigger-controller-clusterrolebinding" ∷ [])

-- Those that it removes: their condition to be created is never met, the one to be deleted always.
abbrev pub removed_resources : List String
removed_resources = assets ("old-leader-role" ∷ "old-leader-rolebinding" ∷ [])
