-- ===== src/Operator/Deployments.antt =====
-- The functions `manage...Deployment...` of
-- pkg/operator/sync_openshiftcontrollermanager_v311_00.go.
pub mod Proxies
pub mod Outcomes
pub mod Checks
use Prim.Native.Char.{code}
use cluster_openshift_contro.Common.{
  ℕ, String, List, [], ◌∷◌, ◌++◌, Option, none, some, Bool, true, false, ◌==◌, ◌||◌, ◌<>◌,
  if◌then◌else◌, not, is_empty, nat_eq, ltb, ◌+◌, ◌&&◌, assign, map, Assoc,
}
use cluster_openshift_contro.Common.Fault.{Fault, Result, ok, err, is_not_found, describe}
use cluster_openshift_contro.Common.Int.{ℤ, pos, decimal}
use cluster_openshift_contro.Common.Effect.{
  Act, pure, fail, call, read, lift, map_fault, ◌>>=◌, ◌>>◌,
}
use cluster_openshift_contro.Names.{route_controller_target_namespace, version_annotation}
use cluster_openshift_contro.Operator.Types.{
  OperatorConfig, GenerationStatus, EnvVar, Container, Deployment, Proxy,
}
use cluster_openshift_contro.Operator.Api.{Api}

-- the switch on Spec.LogLevel
unfoldable pub log_level : String → ℤ
log_level level =
    if level == "TraceAll"
    then pos 8
    else if level == "Trace"
    then pos 6
    else if level == "Debug"
    then pos 4
    else pos 2

abbrev pub within : ℕ → ℕ → ℕ → Bool
within lo hi c = ltb c (hi + 1) && ltb lo (c + 1)

-- unicode.IsSpace
unfoldable pub is_space : ℕ → Bool
is_space c =
    within 9 13 c
    || nat_eq c 32
    || nat_eq c 0x85
    || nat_eq c 0xa0
    || nat_eq c 0x1680
    || within 0x2000 0x200a c
    || within 0x2028 0x2029 c
    || nat_eq c 0x202f
    || nat_eq c 0x205f
    || nat_eq c 0x3000

unfoldable pub trim_left : String → String
unfolding is_space
trim_left String.[] = ""
trim_left (String.◌∷◌ c s) =
    let rest = trim_left s in if is_space (code c) then rest else String.◌∷◌ c s

unfoldable pub trim_right : String → String
unfolding is_space
trim_right String.[] = ""
trim_right (String.◌∷◌ c s) =
    let rest = trim_right s in
    if is_empty rest then (if is_space (code c) then "" else String.◌∷◌ c "") else String.◌∷◌ c rest

-- strings.TrimSpace
unfoldable pub trim_space : String → String
unfolding trim_left trim_right
trim_space s = trim_right (trim_left s)

abbrev pub is_proxy_name : String → Bool
is_proxy_name name = name == "HTTPS_PROXY" || name == "HTTP_PROXY" || name == "NO_PROXY"

-- The variables that are not about the proxy.
unfoldable pub other_envs : List EnvVar → List EnvVar
unfolding trim_space
other_envs [] = []
other_envs (e ∷ es) =
    let rest = other_envs es in if is_proxy_name (trim_space e.name) then rest else e ∷ rest

abbrev pub env_if_set : String → String → List EnvVar
env_if_set name content =
    if is_empty content then [] else record { name = name; content = content } ∷ []

unfoldable pub proxy_envs : Proxy → List EnvVar
proxy_envs proxy =
    env_if_set "HTTPS_PROXY" proxy.https_proxy
    ++ (env_if_set "HTTP_PROXY" proxy.http_proxy ++ env_if_set "NO_PROXY" proxy.no_proxy)

unfoldable pub with_proxy : Proxy → Container → Container
unfolding other_envs proxy_envs
with_proxy proxy c = record c { env = other_envs c.env ++ proxy_envs proxy }

abbrev pub proxied : Proxy → Deployment → Deployment
proxied proxy d = record d {
  first_container = with_proxy proxy d.first_container;
  more_containers = map (with_proxy proxy) d.more_containers;
}

abbrev pub set_image : String → Container → Container
set_image image c = if is_empty image then c else record c { image = image }

abbrev pub add_level : String → Container → Container
add_level level c = record c { args = c.args ++ ("-v=" <> decimal (log_level level)) ∷ [] }

module _ {W : Type 0} (api : Api W) where
  -- The image, the log level and the annotations, which both operands set alike.
  unfoldable pub prepare : Deployment → OperatorConfig → String → Assoc String → Deployment
  unfolding log_level
  prepare required options image spec_annotations = record required {
    first_container = add_level options.log_level (set_image image required.first_container);
    annotations = assign version_annotation api.release_version required.annotations;
    template_annotations = api.merge_map required.template_annotations spec_annotations;
  }

  -- The replica count is the number of master nodes; at most one pod goes to a node.
  unfoldable pub place : Deployment → Act W Deployment
  place required = do
    count ← λ w.
        lift
          (map_fault (describe "failed to determine number of master nodes: ")
            (api.count_nodes required.node_selector w))
          w
    lift (
        map_fault (describe "unable to ensure at most one pod per node: ") (
          api.ensure_at_most_one_pod_per_node (record required { spec_replicas = count })
            route_controller_target_namespace))

  abbrev pub apply : List GenerationStatus → Deployment → Act W Deployment
  apply generations required =
      call (api.apply_deployment required (api.expected_deployment_generation required generations))

  -- An error of the proxy lister is recorded; it ends the function unless it is NotFound.
  abbrev pub apply_with_proxy : List GenerationStatus → Deployment → Result Proxy → Act W Deployment
  apply_with_proxy generations required (ok proxy) w = apply generations (proxied proxy required) w
  apply_with_proxy generations required (err e) w =
      if is_not_found e
      then apply generations required (api.record_event "ProxyConfigGetFailed" w)
      else fail e (api.record_event "ProxyConfigGetFailed" w)

  unfoldable pub manage_deployment :
      OperatorConfig → String → List GenerationStatus → Assoc String → Act W Deployment
  unfolding prepare place with_proxy
  manage_deployment options image generations spec_annotations = do
    required ← place (
        prepare (api.deployment_asset "assets/openshift-controller-manager/deploy.yaml") options
          image spec_annotations)
    λ w. apply_with_proxy generations required (api.get_proxy w) w

  unfoldable pub manage_route_deployment :
      OperatorConfig → String → List GenerationStatus → Assoc String → Act W Deployment
  unfolding prepare place
  manage_route_deployment options image generations spec_annotations = do
    required ← place (
        prepare
          (api.deployment_asset
            "assets/openshift-controller-manager/route-controller-manager-deploy.yaml")
          options image spec_annotations)
    apply generations required
