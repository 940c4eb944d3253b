-- ===== src/Operator/Deployments/Outcomes.antt =====
-- What the function for the deployment of the openshift controller manager returns and writes.
use cluster_openshift_contro.Common.{
  String, List, Option, some, true, false, ◌≡◌, ◌⊎◌, inl, inr, refl, Assoc, Bool-cases,
}
use cluster_openshift_contro.Common.Fault.{
  Fault, Result, ok, err, is_not_found, describe, Result-cases,
}
use cluster_openshift_contro.Common.Int.{ℤ}
use cluster_openshift_contro.Names.{route_controller_target_namespace}
use cluster_openshift_contro.Operator.Types.{OperatorConfig, GenerationStatus, Deployment, Proxy}
use cluster_openshift_contro.Operator.Api.{Api}
use cluster_openshift_contro.Operator.Deployments.{
  prepare, place, proxied, manage_deployment, manage_route_deployment,
}

module _ {W : Type 0} (api : Api W) (options : OperatorConfig) (image : String)
    (generations : List GenerationStatus) (annotations : Assoc String) (w : W) where
  abbrev pub prepared : String → Deployment
  prepared path = prepare api (api.deployment_asset path) options image annotations

  abbrev pub operand_path : String
  operand_path = "assets/openshift-controller-manager/deploy.yaml"

  abbrev pub route_path : String
  route_path = "assets/openshift-controller-manager/route-controller-manager-deploy.yaml"

  -- The manifest at a path with as many replicas as there are master nodes, at most one to a node.
  pub record IsPlaced (path : String) (d : Deployment) : Type 0 where
    pub count : Option ℤ
    pub counted : api.count_nodes (prepared path).node_selector w ≡ ok count
    pub spread :
        api.ensure_at_most_one_pod_per_node
          (record (prepared path) { spec_replicas = count })
          route_controller_target_namespace
        ≡ ok d

  -- Why the manifest at a path cannot be placed, and the error that is returned.
  pub data Unplaced (path : String) : Fault → Type 0 where
    uncounted :
        (e : Fault)
        → api.count_nodes (prepared path).node_selector w ≡ err e
        → Unplaced path (describe "failed to determine number of master nodes: " e)
    unspread :
        (count : Option ℤ) (e : Fault)
        → api.count_nodes (prepared path).node_selector w ≡ ok count
        → api.ensure_at_most_one_pod_per_node
            (record (prepared path) { spec_replicas = count })
            route_controller_target_namespace
          ≡ err e
        → Unplaced path (describe "unable to ensure at most one pod per node: " e)

  place_cases :
      (path : String)
      → ((d : Deployment) × IsPlaced path d × (place api (prepared path) w ≡ some (ok d, w)))
        ⊎ ((e : Fault) × Unplaced path e × (place api (prepared path) w ≡ some (err e, w)))
  unfolding place
  place_cases path = elim (Result-cases (api.count_nodes (prepared path).node_selector w)) [
    | inr (e, failed) ↦ inr (
      describe "failed to determine number of master nodes: " e,
      uncounted e failed,
      rw failed refl,
    )
    | inl (n, counted) ↦
        elim (Result-cases (
          api.ensure_at_most_one_pod_per_node (record (prepared path) { spec_replicas = n })
            route_controller_target_namespace)) [
              | inr (e, failed) ↦ inr (
                describe "unable to ensure at most one pod per node: " e,
                unspread n e counted failed,
                rw (counted, failed),
              )
              | inl (d, spread) ↦ inl (
                d,
                record { count = n; counted = counted; spread = spread },
                rw (counted, spread),
              )
            ]
  ]

  abbrev pub apply_in : Deployment → W → Option (Result Deployment × W)
  apply_in d v = some (api.apply_deployment d (api.expected_deployment_generation d generations) v)

  -- Either the deployment cannot be placed, and its error is returned with nothing written; or the
  -- proxy configuration is read, and the deployment is applied with it; or it is not found, which is
  -- recorded, and the deployment is applied as it is; or it cannot be read, which is recorded and
  -- returned, and nothing is applied.
  pub manage_deployment_lem :
      ((e : Fault) × Unplaced operand_path e
        × (manage_deployment api options image generations annotations w ≡ some (err e, w)))
      ⊎ ((d : Deployment) × IsPlaced operand_path d
          × (((proxy : Proxy) × (api.get_proxy w ≡ ok proxy)
                × (manage_deployment api options image generations annotations w
                    ≡ apply_in (proxied proxy d) w))
              ⊎ ((e : Fault) × (api.get_proxy w ≡ err e)
                  × ((is_not_found e ≡ true)
                        × (manage_deployment api options image generations annotations w
                            ≡ apply_in d (api.record_event "ProxyConfigGetFailed" w))
                      ⊎ (is_not_found e ≡ false)
                        × (manage_deployment api options image generations annotations w
                            ≡ some (err e, api.record_event "ProxyConfigGetFailed" w))))))
  unfolding manage_deployment
  manage_deployment_lem = elim (place_cases operand_path) [
    | inr (e, unplaced, failed) ↦ inl (e, unplaced, rw failed refl)
    | inl (d, placed, done) ↦ inr (
      d,
      placed,
      elim (Result-cases (api.get_proxy w)) [
        | inl (proxy, read) ↦ inl (proxy, read, rw (done, read))
        | inr (e, failed) ↦ inr (
          e,
          failed,
          elim (Bool-cases (is_not_found e)) [
            | inl missing ↦ inl (missing, rw (done, failed, missing))
            | inr other ↦ inr (other, rw (done, failed, other))
          ],
        )
      ],
    )
  ]

  -- Either the deployment of the route controller manager cannot be placed, and its error is returned
  -- with nothing written; or it is applied, without regard to a proxy configuration.
  pub manage_route_deployment_lem :
      ((e : Fault) × Unplaced route_path e
        × (manage_route_deployment api options image generations annotations w ≡ some (err e, w)))
      ⊎ ((d : Deployment) × IsPlaced route_path d
          × (manage_route_deployment api options image generations annotations w ≡ apply_in d w))
  unfolding manage_route_deployment
  manage_route_deployment_lem = elim (place_cases route_path) [
    | inr (e, unplaced, failed) ↦ inl (e, unplaced, rw failed refl)
    | inl (d, placed, done) ↦ inr (d, placed, rw done refl)
  ]
