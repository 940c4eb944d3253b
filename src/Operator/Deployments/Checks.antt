-- ===== src/Operator/Deployments/Checks.antt =====
-- Runs of the functions for the deployments, and their theorems at concrete inputs.
use cluster_openshift_contro.Common.{String, [], ◌∷◌, Option, some, true, false, ◌≡◌, ◌⊎◌, refl}
use cluster_openshift_contro.Common.Fault.{Fault, Result, ok, err, is_not_found}
use cluster_openshift_contro.Operator.Types.{Deployment, Proxy}
use cluster_openshift_contro.Operator.Sample.{
  World, world, api, config, container, cluster_proxy, absent,
}
use cluster_openshift_contro.Operator.Deployments.{
  proxied, with_proxy, manage_deployment, manage_route_deployment, trim_space,
}
use cluster_openshift_contro.Operator.Deployments.Proxies.{
  find_env, configured, with_proxy-find_env,
}
use cluster_openshift_contro.Operator.Deployments.Outcomes.{
  apply_in, IsPlaced, Unplaced, manage_deployment_lem,
}

trim_space_run : trim_space " \tNO_PROXY \n" ≡ "NO_PROXY"
unfolding trim_space
trim_space_run = refl

with_proxy-find_env_example :
    find_env "NO_PROXY" (with_proxy cluster_proxy container).env
    ≡ configured cluster_proxy "NO_PROXY" (find_env "NO_PROXY" container.env)
with_proxy-find_env_example = with_proxy-find_env cluster_proxy container "NO_PROXY"

abbrev no_proxy : World
no_proxy = world (("proxy", absent) ∷ [])

abbrev run : Option (Result Deployment × World)
run = manage_deployment api config "image" [] [] no_proxy

abbrev run_route : Option (Result Deployment × World)
run_route = manage_route_deployment api config "image" [] [] no_proxy

abbrev applied : Deployment → World → Option (Result Deployment × World)
applied = apply_in api config "image" [] [] no_proxy

abbrev Placed : String → Deployment → Type 0
Placed = IsPlaced api config "image" [] [] no_proxy

abbrev NotPlaced : String → Fault → Type 0
NotPlaced = Unplaced api config "image" [] [] no_proxy

manage_deployment_lem_example :
    ((e : Fault) × NotPlaced "assets/openshift-controller-manager/deploy.yaml" e
      × (run ≡ some (err e, no_proxy)))
    ⊎ ((d : Deployment) × Placed "assets/openshift-controller-manager/deploy.yaml" d
        × (((proxy : Proxy) × (api.get_proxy no_proxy ≡ ok proxy)
              × (run ≡ applied (proxied proxy d) no_proxy))
            ⊎ ((e : Fault) × (api.get_proxy no_proxy ≡ err e)
                × ((is_not_found e ≡ true)
                      × (run ≡ applied d (api.record_event "ProxyConfigGetFailed" no_proxy))
                    ⊎ (is_not_found e ≡ false)
                      × (run ≡ some (err e, api.record_event "ProxyConfigGetFailed" no_proxy))))))
manage_deployment_lem_example = manage_deployment_lem api config "image" [] [] no_proxy
