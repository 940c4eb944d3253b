-- ===== src/Operator/Sync/Gathering.antt =====
-- What is known of the ConfigMaps once a sync has gathered them without errors.
use cluster_openshift_contro.Common.{
  String, List, [], ◌∷◌, ◌++◌, Option, some, ◌≡◌, refl, ap, ◌∙◌, assign,
}
use cluster_openshift_contro.Common.Fault.{Fault, Result, ok, err, describe, wrap}
use cluster_openshift_contro.Common.Int.{decimal}
use cluster_openshift_contro.Common.Effect.{attempt_inv, some_ok_inj}
use cluster_openshift_contro.Operator.Types.{OperatorConfig, ConfigMap, Deployment}
use cluster_openshift_contro.Operator.Api.{Api}
use cluster_openshift_contro.Operator.ConfigMaps.{
  manage_client_ca, manage_route_client_ca, manage_config_map, manage_route_config_map,
  manage_service_ca, manage_global_ca,
}
use cluster_openshift_contro.Operator.Sync.{
  Gathered, version_or_zero, gather, gather_optional, gather_deployment, gather_operand,
  gather_route, initial, context, operand_name, route_operand_name,
}

pub append_ne_nil : (es : List Fault) (e : Fault) → es ++ e ∷ [] ≡ [] → ⊥
append_ne_nil [] e h = cc
append_ne_nil (x ∷ es) e h = cc

-- Nothing was added to the errors exactly by a part that succeeded.
gather_inv :
    (f : Fault → Fault) (key : String) (r : Result ConfigMap) (g : Gathered)
    → (gather f key r g).errors ≡ []
    → (cm : ConfigMap) × (r ≡ ok cm) × (g.errors ≡ [])
gather_inv f key (ok cm) g h = (cm, refl, h)
gather_inv f key (err e) g h = absurd (append_ne_nil g.errors (f e) h)

gather_optional_inv :
    (f : Fault → Fault) (key : String) (r : Result (Option ConfigMap)) (g : Gathered)
    → (gather_optional f key r g).errors ≡ []
    → (cm : Option ConfigMap) × (r ≡ ok cm) × (g.errors ≡ [])
gather_optional_inv f key (ok cm) g h = (cm, refl, h)
gather_optional_inv f key (err e) g h = absurd (append_ne_nil g.errors (f e) h)

gather_deployment_inv :
    (f : Fault → Fault) (r : Result Deployment) (g : Gathered)
    → (gather_deployment f r g).errors ≡ []
    → (d : Deployment) × (r ≡ ok d) × (g.errors ≡ [])
gather_deployment_inv f (ok d) g h = (d, refl, h)
gather_deployment_inv f (err e) g h = absurd (append_ne_nil g.errors (f e) h)

module _ {W : Type 0} (api : Api W) where
  -- The ConfigMaps of both operands, synced one after the other, none with an error.
  pub record Gathering (options : OperatorConfig) (w v : W) (g r : Gathered) : Type 0 where
    pub config_map : ConfigMap
    pub client_ca : Option ConfigMap
    pub service_ca : ConfigMap
    pub global_ca : ConfigMap
    pub route_config_map : ConfigMap
    pub route_client_ca : Option ConfigMap
    pub w1 : W
    pub w2 : W
    pub w3 : W
    pub w4 : W
    pub w5 : W
    pub config_map_synced : manage_config_map api options w ≡ some (ok config_map, w1)
    pub client_ca_synced : manage_client_ca api w1 ≡ some (ok client_ca, w2)
    pub service_ca_synced : manage_service_ca api w2 ≡ some (ok service_ca, w3)
    pub global_ca_synced : manage_global_ca api w3 ≡ some (ok global_ca, w4)
    pub route_config_map_synced :
        manage_route_config_map api options w4 ≡ some (ok route_config_map, w5)
    pub route_client_ca_synced : manage_route_client_ca api w5 ≡ some (ok route_client_ca, v)
    -- the pod templates are annotated with the versions of what they read
    pub annotations :
        g.annotations
        ≡ assign "configmaps/openshift-global-ca" global_ca.resource_version (
            assign "configmaps/openshift-service-ca" service_ca.resource_version (
              assign "configmaps/client-ca" (version_or_zero client_ca) (
                assign "configmaps/config" config_map.resource_version (
                  (
                    "openshiftcontrollermanagers.operator.openshift.io/cluster",
                    decimal options.generation,
                  )
                  ∷ []))))
    pub route_annotations :
        r.annotations
        ≡ assign "configmaps/client-ca" (version_or_zero route_client_ca) (
            assign "configmaps/config" route_config_map.resource_version (
              (
                "openshiftcontrollermanagers.operator.openshift.io/cluster",
                decimal options.generation,
              )
              ∷ []))

  abbrev gather_all :
      OperatorConfig
      → Result ConfigMap
      → Result (Option ConfigMap)
      → Result ConfigMap
      → Result ConfigMap
      → Gathered
  gather_all options x1 x2 x3 x4 =
      gather (describe (context operand_name "openshift-global-ca"))
        "configmaps/openshift-global-ca" x4
        (gather (describe (context operand_name "openshift-service-ca"))
          "configmaps/openshift-service-ca" x3
          (gather_optional (describe (context operand_name "client-ca")) "configmaps/client-ca" x2 (
            gather (wrap (context operand_name "config")) "configmaps/config" x1
              (initial api options))))

  abbrev gather_route_all : OperatorConfig → Result ConfigMap → Result (Option ConfigMap) → Gathered
  gather_route_all options y1 y2 =
      gather_optional (describe (context route_operand_name "client-ca")) "configmaps/client-ca" y2
        (gather (describe (context route_operand_name "configmap")) "configmaps/config" y1
          (initial api options))

  pub operand_inv :
      (options : OperatorConfig) (w u : W) (g : Gathered)
      → gather_operand api options w ≡ some (ok g, u)
      → (x1 : Result ConfigMap) × (x2 : Result (Option ConfigMap)) × (x3 x4 : Result ConfigMap)
        × (w1 w2 w3 : W) × (manage_config_map api options w ≡ some (x1, w1))
        × (manage_client_ca api w1 ≡ some (x2, w2))
        × (manage_service_ca api w2 ≡ some (x3, w3))
        × (manage_global_ca api w3 ≡ some (x4, u))
        × (gather_all options x1 x2 x3 x4 ≡ g)
  unfolding gather_operand
  operand_inv options w u g h =
      let (x1, w1, e1, h1) = attempt_inv (manage_config_map api options) _ w h in
      let (x2, w2, e2, h2) = attempt_inv (manage_client_ca api) _ w1 h1 in
      let (x3, w3, e3, h3) = attempt_inv (manage_service_ca api) _ w2 h2 in
      let (x4, w4, e4, h4) = attempt_inv (manage_global_ca api) _ w3 h3 in
      let (same, last) = some_ok_inj h4 in
      (x1, x2, x3, x4, w1, w2, w3, e1, e2, e3, e4 ∙ ap (λ v. some (x4, v)) last, same)

  route_inv :
      (options : OperatorConfig) (u v : W) (r : Gathered)
      → gather_route api options u ≡ some (ok r, v)
      → (y1 : Result ConfigMap) × (y2 : Result (Option ConfigMap)) × (w1 : W)
        × (manage_route_config_map api options u ≡ some (y1, w1))
        × (manage_route_client_ca api w1 ≡ some (y2, v))
        × (gather_route_all options y1 y2 ≡ r)
  unfolding gather_route
  route_inv options u v r h =
      let (y1, w1, e1, h1) = attempt_inv (manage_route_config_map api options) _ u h in
      let (y2, w2, e2, h2) = attempt_inv (manage_route_client_ca api) _ w1 h1 in
      let (same, last) = some_ok_inj h2 in (y1, y2, w1, e1, e2 ∙ ap (λ v. some (y2, v)) last, same)

  pub all_ok :
      (options : OperatorConfig) (x1 : Result ConfigMap) (x2 : Result (Option ConfigMap))
      (x3 x4 : Result ConfigMap)
      → (gather_all options x1 x2 x3 x4).errors ≡ []
      → (c1 : ConfigMap) × (c2 : Option ConfigMap) × (c3 c4 : ConfigMap) × (x1 ≡ ok c1)
        × (x2 ≡ ok c2)
        × (x3 ≡ ok c3)
        × (x4 ≡ ok c4)
  all_ok options x1 x2 x3 x4 h =
      let (c4, e4, h3) = gather_inv _ _ x4 _ h in
      let (c3, e3, h2) = gather_inv _ _ x3 _ h3 in
      let (c2, e2, h1) = gather_optional_inv _ _ x2 _ h2 in
      let (c1, e1, h0) = gather_inv _ _ x1 _ h1 in (c1, c2, c3, c4, e1, e2, e3, e4)

  pub gather-Gathering :
      (options : OperatorConfig) (w u v : W) (g r : Gathered)
      → gather_operand api options w ≡ some (ok g, u)
      → gather_route api options u ≡ some (ok r, v)
      → g.errors ≡ []
      → r.errors ≡ []
      → Gathering options w v g r
  gather-Gathering options w u v g r h k eg er =
      let (x1, x2, x3, x4, w1, w2, w3, s1, s2, s3, s4, gs) = operand_inv options w u g h in
      let (y1, y2, w5, t1, t2, rs) = route_inv options u v r k in
      let (c1, c2, c3, c4, e1, e2, e3, e4) =
        all_ok options x1 x2 x3 x4 (ap (λ g. g.errors) gs ∙ eg) in
      let (d2, f2, h1) = gather_optional_inv _ _ y2 _ (ap (λ r. r.errors) rs ∙ er) in
      let (d1, f1, h0) = gather_inv _ _ y1 _ h1 in
      record {
        config_map = c1;
        client_ca = c2;
        service_ca = c3;
        global_ca = c4;
        route_config_map = d1;
        route_client_ca = d2;
        w1 = w1;
        w2 = w2;
        w3 = w3;
        w4 = u;
        w5 = w5;
        config_map_synced = s1 ∙ ap (λ x. some (x, w1)) e1;
        client_ca_synced = s2 ∙ ap (λ x. some (x, w2)) e2;
        service_ca_synced = s3 ∙ ap (λ x. some (x, w3)) e3;
        global_ca_synced = s4 ∙ ap (λ x. some (x, u)) e4;
        route_config_map_synced = t1 ∙ ap (λ x. some (x, w5)) f1;
        route_client_ca_synced = t2 ∙ ap (λ x. some (x, v)) f2;
        annotations = rw (← gs, e1, e2, e3, e4);
        route_annotations = rw (← rs, f1, f2);
      }
