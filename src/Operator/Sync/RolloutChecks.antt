-- ===== src/Operator/Sync/RolloutChecks.antt =====
-- The pod templates of two syncs in the cluster in memory.
use cluster_openshift_contro.Common.{
  String, [], ◌∷◌, ◌++◌, Option, none, some, ◌≡◌, refl, arith, lookup, assign, Assoc,
}
use cluster_openshift_contro.Common.Fault.{Result, ok, err}
use cluster_openshift_contro.Operator.Types.{OperatorConfig}
use cluster_openshift_contro.Operator.ConfigMaps.{
  manage_config_map, manage_client_ca, manage_service_ca, manage_global_ca, manage_route_config_map,
  manage_route_client_ca,
}
use cluster_openshift_contro.Operator.Deployments.{prepare}
use cluster_openshift_contro.Operator.Sync.{Gathered, gather_operand, gather_route, version_or_zero}
use cluster_openshift_contro.Operator.Sync.Rollout.{MergesMap, OperandMaps, same_template}
use cluster_openshift_contro.Operator.Sample.{World, world, api, config, deployment}

lookup-append :
    (key v : String) (more m : Assoc String)
    → lookup key m ≡ some v
    → lookup key (m ++ more) ≡ some v
unfolding lookup
lookup-append key v more [] there = absurd (cc)
lookup-append key v more ((j, u) ∷ m) there = ground (arith, lookup-append key v more m)

api-MergesMap : MergesMap api
api-MergesMap key v existing required listed there = lookup-append key v existing required there

abbrev verbose : OperatorConfig
verbose = record config { log_level = "Debug" }

abbrev nothing : Gathered
nothing = record { errors = []; annotations = [] }

abbrev gathered : Option (Result Gathered × World) → Gathered
gathered none = nothing
gathered (some (ok g, w)) = g
gathered (some (err e, w)) = nothing

abbrev left : Option (Result Gathered × World) → World
left none = world []
left (some (r, w)) = w

abbrev operand : OperatorConfig → Option (Result Gathered × World)
operand options = gather_operand api options (world [])

operand-gathered :
    operand config ≡ some (ok (gathered (operand config)), left (operand config))
    × (operand verbose ≡ some (ok (gathered (operand verbose)), left (operand verbose)))
    × ((gathered (operand config)).errors ≡ [])
    × ((gathered (operand verbose)).errors ≡ [])
unfolding gather_operand manage_config_map manage_client_ca manage_service_ca manage_global_ca
    lookup assign
operand-gathered = (refl, refl, refl, refl)

template_kept :
    (prepare api
      (deployment "ns" "name")
      config
      "image"
      (gathered (operand config)).annotations).template_annotations
    ≡ (prepare api
        (deployment "ns" "name")
        verbose
        "image"
        (gathered (operand verbose)).annotations).template_annotations
unfolding gather_operand gather_route manage_config_map manage_client_ca manage_service_ca
    manage_global_ca manage_route_config_map manage_route_client_ca lookup assign prepare
template_kept = refl

same_template_example :
    (x : OperandMaps api config (world []) (left (operand config))) × (y : OperandMaps api verbose
      (world [])
      (left (operand verbose)))
    × (config.generation ≡ verbose.generation)
    × (x.config_map.resource_version ≡ y.config_map.resource_version)
    × (version_or_zero x.client_ca ≡ version_or_zero y.client_ca)
    × (x.service_ca.resource_version ≡ y.service_ca.resource_version)
    × (x.global_ca.resource_version ≡ y.global_ca.resource_version)
same_template_example =
    same_template api api-MergesMap config verbose (world []) (left (operand config)) (world [])
      (left (operand verbose)) (gathered (operand config)) (gathered (operand verbose))
      (deployment "ns" "name") (deployment "ns" "name") "image" "image" operand-gathered.0
      operand-gathered.1 operand-gathered.2 operand-gathered.3 template_kept
