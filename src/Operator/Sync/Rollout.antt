-- ===== src/Operator/Sync/Rollout.antt =====
-- What changes the pod templates of the two operands.
use mathlib.Core.Option.{some_inj}
use cluster_openshift_contro.Common.{
  String, List, [], ◌∷◌, Option, some, true, ◌≡◌, refl, sym, ap, ◌∙◌, lookup, assign, Assoc, member,
}
use cluster_openshift_contro.Common.Int.{decimal}
use cluster_openshift_contro.Common.Int.Reading.{decimal_inj}
use cluster_openshift_contro.Operator.Types.{OperatorConfig, Deployment, ConfigMap}
use cluster_openshift_contro.Operator.Api.{Api}
use cluster_openshift_contro.Common.Fault.{ok}
use cluster_openshift_contro.Operator.ConfigMaps.{
  manage_config_map, manage_client_ca, manage_service_ca, manage_global_ca,
}
use cluster_openshift_contro.Operator.Deployments.{prepare}
use cluster_openshift_contro.Operator.Sync.{Gathered, version_or_zero, gather_operand}
use cluster_openshift_contro.Operator.Sync.Gathering.{Gathering, operand_inv, all_ok}

abbrev pub generation_key : String
generation_key = "openshiftcontrollermanagers.operator.openshift.io/cluster"

-- The keys of the annotations that a sync gathers.
abbrev pub annotation_keys : List String
annotation_keys =
    generation_key ∷ "configmaps/config" ∷ "configmaps/client-ca"
    ∷ "configmaps/openshift-service-ca" ∷ "configmaps/openshift-global-ca" ∷ []

-- resourcemerge.MergeMap: what is required under a key that does not end in "-" is set.
abbrev pub MergesMap : {W : Type 0} → Api W → Type 0
MergesMap api =
    (key : String) (v : String) (existing required : Assoc String)
    → member key annotation_keys ≡ true
    → lookup key required ≡ some v
    → lookup key (api.merge_map existing required) ≡ some v

module _ {W : Type 0} (api : Api W) (merges : MergesMap api) where
  -- Equal templates have equal annotations under each key that was gathered.
  same_annotation :
      (key : String) {v v' : String} {t t' a a' : Assoc String}
      → member key annotation_keys ≡ true
      → lookup key a ≡ some v
      → lookup key a' ≡ some v'
      → api.merge_map t a ≡ api.merge_map t' a'
      → v ≡ v'
  same_annotation key {v} {v'} {t} {t'} {a} {a'} listed there there' same = some_inj.0 (
      sym (merges key v t a listed there)
      ∙ ap (lookup key) same
      ∙ merges key v' t' a' listed there')

-- The four ConfigMaps of the openshift controller manager, synced one after the other.
pub record OperandMaps {W : Type 0} (api : Api W) (options : OperatorConfig) (w u : W)
    : Type 0 where
  pub config_map : ConfigMap
  pub client_ca : Option ConfigMap
  pub service_ca : ConfigMap
  pub global_ca : ConfigMap
  pub w1 : W
  pub w2 : W
  pub w3 : W
  pub config_map_synced : manage_config_map api options w ≡ some (ok config_map, w1)
  pub client_ca_synced : manage_client_ca api w1 ≡ some (ok client_ca, w2)
  pub service_ca_synced : manage_service_ca api w2 ≡ some (ok service_ca, w3)
  pub global_ca_synced : manage_global_ca api w3 ≡ some (ok global_ca, u)

module _ {W : Type 0} (api : Api W) where
  -- What is looked up in the annotations that are gathered.
  record IsAnnotated (options : OperatorConfig) (w u : W) (g : Gathered) : Type 0 where
    maps : OperandMaps api options w u
    generation : lookup generation_key g.annotations ≡ some (decimal options.generation)
    config : lookup "configmaps/config" g.annotations ≡ some maps.config_map.resource_version
    client_ca : lookup "configmaps/client-ca" g.annotations ≡ some (version_or_zero maps.client_ca)
    service_ca :
        lookup "configmaps/openshift-service-ca" g.annotations
        ≡ some maps.service_ca.resource_version
    global_ca :
        lookup "configmaps/openshift-global-ca" g.annotations ≡ some maps.global_ca.resource_version

  gather_operand-IsAnnotated :
      (options : OperatorConfig) (w u : W) (g : Gathered)
      → gather_operand api options w ≡ some (ok g, u)
      → g.errors ≡ []
      → IsAnnotated options w u g
  unfolding lookup assign
  gather_operand-IsAnnotated options w u g h no_errors =
      let (x1, x2, x3, x4, w1, w2, w3, s1, s2, s3, s4, gs) = operand_inv api options w u g h in
      let (c1, c2, c3, c4, e1, e2, e3, e4) =
        all_ok api options x1 x2 x3 x4 (ap (λ g. g.errors) gs ∙ no_errors) in
      record {
        maps = record {
          config_map = c1;
          client_ca = c2;
          service_ca = c3;
          global_ca = c4;
          w1 = w1;
          w2 = w2;
          w3 = w3;
          config_map_synced = s1 ∙ ap (λ x. some (x, w1)) e1;
          client_ca_synced = s2 ∙ ap (λ x. some (x, w2)) e2;
          service_ca_synced = s3 ∙ ap (λ x. some (x, w3)) e3;
          global_ca_synced = s4 ∙ ap (λ x. some (x, u)) e4;
        };
        generation = rw (← gs, e1, e2, e3, e4) refl;
        config = rw (← gs, e1, e2, e3, e4) refl;
        client_ca = rw (← gs, e1, e2, e3, e4) refl;
        service_ca = rw (← gs, e1, e2, e3, e4) refl;
        global_ca = rw (← gs, e1, e2, e3, e4) refl;
      }

  -- The pod template of the openshift controller manager changes with each new generation of the
  -- configuration and each new version of a ConfigMap: if two syncs gather the versions of its
  -- ConfigMaps without an error and prepare deployments with the same annotations of the template, then
  -- the generations are the same and the ConfigMaps that the two have synced have the same versions.
  pub same_template :
      MergesMap api
      → (options options' : OperatorConfig) (w u w' u' : W) (g g' : Gathered) (d d' : Deployment)
        (image image' : String)
      → gather_operand api options w ≡ some (ok g, u)
      → gather_operand api options' w' ≡ some (ok g', u')
      → g.errors ≡ []
      → g'.errors ≡ []
      → (prepare api d options image g.annotations).template_annotations
        ≡ (prepare api d' options' image' g'.annotations).template_annotations
      → (x : OperandMaps api options w u) × (y : OperandMaps api options' w' u')
        × (options.generation ≡ options'.generation)
        × (x.config_map.resource_version ≡ y.config_map.resource_version)
        × (version_or_zero x.client_ca ≡ version_or_zero y.client_ca)
        × (x.service_ca.resource_version ≡ y.service_ca.resource_version)
        × (x.global_ca.resource_version ≡ y.global_ca.resource_version)
  unfolding prepare
  same_template merges options options' w u w' u' g g' d d' image image' h h' e e' same =
      let x = gather_operand-IsAnnotated options w u g h e in
      let y = gather_operand-IsAnnotated options' w' u' g' h' e' in
      (
        x.maps,
        y.maps,
        decimal_inj (same_annotation api merges generation_key refl x.generation y.generation same),
        same_annotation api merges "configmaps/config" refl x.config y.config same,
        same_annotation api merges "configmaps/client-ca" refl x.client_ca y.client_ca same,
        same_annotation api merges "configmaps/openshift-service-ca" refl x.service_ca y.service_ca
            same,
        same_annotation api merges "configmaps/openshift-global-ca" refl x.global_ca y.global_ca
            same,
      )

  -- So does the pod template of the route controller manager.
  pub same_route_template :
      MergesMap api
      → (options options' : OperatorConfig) (w w' v v' : W) (g r g' r' : Gathered)
        (x : Gathering api options w v g r) (y : Gathering api options' w' v' g' r')
        (d d' : Deployment) (image image' : String)
      → (prepare api d options image r.annotations).template_annotations
        ≡ (prepare api d' options' image' r'.annotations).template_annotations
      → (options.generation ≡ options'.generation)
        × (x.route_config_map.resource_version ≡ y.route_config_map.resource_version)
        × (version_or_zero x.route_client_ca ≡ version_or_zero y.route_client_ca)
  unfolding prepare lookup assign
  same_route_template merges options options' w w' v v' g r g' r' x y d d' image image' same = (
    decimal_inj (
        same_annotation api merges generation_key refl
          (ap (lookup generation_key) x.route_annotations)
          (ap (lookup generation_key) y.route_annotations) same),
    same_annotation api merges "configmaps/config" refl
        (ap (lookup "configmaps/config") x.route_annotations)
        (ap (lookup "configmaps/config") y.route_annotations) same,
    same_annotation api merges "configmaps/client-ca" refl
        (ap (lookup "configmaps/client-ca") x.route_annotations)
        (ap (lookup "configmaps/client-ca") y.route_annotations) same,
  )
