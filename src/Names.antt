-- ===== src/Names.antt =====
-- Names that the operator takes from the API packages and from pkg/util/consts.go.
use Prim.Native.String.{String}

-- github.com/openshift/api/openshiftcontrolplane/v1, OpenShiftControllerName
abbrev pub service_account_controller : String
service_account_controller = "openshift.io/serviceaccount"

abbrev pub default_role_bindings_controller : String
default_role_bindings_controller = "openshift.io/default-rolebindings"

abbrev pub service_account_pull_secrets_controller : String
service_account_pull_secrets_controller = "openshift.io/serviceaccount-pull-secrets"

abbrev pub origin_namespace_controller : String
origin_namespace_controller = "openshift.io/origin-namespace"

abbrev pub build_controller : String
build_controller = "openshift.io/build"

abbrev pub build_config_change_controller : String
build_config_change_controller = "openshift.io/build-config-change"

abbrev pub builder_service_account_controller : String
builder_service_account_controller = "openshift.io/builder-serviceaccount"

abbrev pub builder_role_bindings_controller : String
builder_role_bindings_controller = "openshift.io/builder-rolebindings"

abbrev pub deployer_controller : String
deployer_controller = "openshift.io/deployer"

abbrev pub deployer_service_account_controller : String
deployer_service_account_controller = "openshift.io/deployer-serviceaccount"

abbrev pub deployer_role_bindings_controller : String
deployer_role_bindings_controller = "openshift.io/deployer-rolebindings"

abbrev pub deployment_config_controller : String
deployment_config_controller = "openshift.io/deploymentconfig"

abbrev pub image_puller_role_bindings_controller : String
image_puller_role_bindings_controller = "openshift.io/image-puller-rolebindings"

abbrev pub image_trigger_controller : String
image_trigger_controller = "openshift.io/image-trigger"

abbrev pub image_import_controller : String
image_import_controller = "openshift.io/image-import"

abbrev pub image_signature_import_controller : String
image_signature_import_controller = "openshift.io/image-signature-import"

abbrev pub template_instance_controller : String
template_instance_controller = "openshift.io/templateinstance"

abbrev pub template_instance_finalizer_controller : String
template_instance_finalizer_controller = "openshift.io/templateinstancefinalizer"

abbrev pub unidling_controller : String
unidling_controller = "openshift.io/unidling"

abbrev pub ingress_ip_controller : String
ingress_ip_controller = "openshift.io/ingress-ip"

abbrev pub ingress_to_route_controller : String
ingress_to_route_controller = "openshift.io/ingress-to-route"

-- github.com/openshift/api/config/v1, ClusterVersionCapability
abbrev pub capability_build : String
capability_build = "Build"

abbrev pub capability_deployment_config : String
capability_deployment_config = "DeploymentConfig"

abbrev pub capability_image_registry : String
capability_image_registry = "ImageRegistry"

-- pkg/util/consts.go
abbrev pub kube_apiserver_namespace : String
kube_apiserver_namespace = "openshift-kube-apiserver"

abbrev pub user_specified_global_config_namespace : String
user_specified_global_config_namespace = "openshift-config"

abbrev pub target_namespace : String
target_namespace = "openshift-controller-manager"

abbrev pub route_controller_target_namespace : String
route_controller_target_namespace = "openshift-route-controller-manager"

abbrev pub operator_namespace : String
operator_namespace = "openshift-controller-manager-operator"

abbrev pub machine_specified_global_config_namespace : String
machine_specified_global_config_namespace = "openshift-config-managed"

abbrev pub infra_namespace : String
infra_namespace = "openshift-infra"

abbrev pub cluster_operator_name : String
cluster_operator_name = "openshift-controller-manager"

abbrev pub version_annotation : String
version_annotation = "release.openshift.io/version"
