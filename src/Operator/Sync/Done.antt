-- ===== src/Operator/Sync/Done.antt =====
-- What a sync has done that asks for no other sync.
use cluster_openshift_contro.Common.{
  String, List, [], ◌∷◌, Option, none, some, Bool, true, false, ◌≡◌, refl, sym, ap, arith, ◌||◌,
  Bool-cases, inl, inr, ◌∙◌,
}
use mathlib.Core.Option.{some_inj}
use cluster_openshift_contro.Common.Fault.{Fault, Result, ok, err}
use cluster_openshift_contro.Common.Int.{ℤ}
use cluster_openshift_contro.Common.Effect.{attempt_inv, bind_inv}
use cluster_openshift_contro.Operator.Types.{OperatorConfig, Deployment}
use cluster_openshift_contro.Operator.Api.{Api}
use cluster_openshift_contro.Operator.Deployments.{manage_deployment, manage_route_deployment}
use cluster_openshift_contro.Operator.Conditions.{
  set_controller_manager_status_conditions, with_replicas,
}
use cluster_openshift_contro.Operator.Sync.{
  Images, Gathered, is_nonempty, gather_deployment, gather_operand, gather_route, sync_return,
  written, set_degraded, publish, return_with, both_conditions, set_version, seal, finish_sync,
  sync_to_latest, route_condition_prefix,
}
use cluster_openshift_contro.Operator.Sync.Gathering.{append_ne_nil, Gathering, gather-Gathering}

is_nonempty-false : (es : List Fault) → is_nonempty es ≡ false → es ≡ []
is_nonempty-false [] h = refl
is_nonempty-false (e ∷ es) h = absurd (cc)

module _ {W : Type 0} (api : Api W) where
  written-false :
      (requeue : Bool) (r : Option Fault × W) {w' : W}
      → written api requeue r ≡ some (ok false, w')
      → requeue ≡ false
  written-false true (none, w) h = absurd (cc)
  written-false false r h = refl
  written-false true (some e, w) h = absurd (cc)

  sync_return-false :
      (es rs : List Fault) (original config : OperatorConfig) (w : W) {w' : W}
      → sync_return api es rs original config w ≡ some (ok false, w')
      → (es ≡ []) × (rs ≡ [])
  unfolding sync_return
  sync_return-false es rs original config w {w'} h =
      let calm : (is_nonempty es || is_nonempty rs) ≡ false =
        elim (Bool-cases (api.same_status (set_degraded api es rs config).status original.status)) [
          | inl same ↦ ground arith
          | inr differs ↦
              written-false (is_nonempty es || is_nonempty rs)
                (api.update_status (set_degraded api es rs config) w) {w' = w'} (ground arith)
        ] in
      (is_nonempty-false es (ground arith), is_nonempty-false rs (ground arith))

  with_replicas_inv :
      (options : OperatorConfig) (d : Deployment) (name prefix : String) (n : Option ℤ)
      (c : OperatorConfig)
      → with_replicas api options d name prefix n ≡ some c
      → (c.status.version ≡ options.status.version) × (c.generation ≡ options.generation)
  with_replicas_inv options d name prefix none c h = absurd (cc)
  with_replicas_inv options d name prefix (some n) c h =
      let e = some_inj.0 h in (ap (λ c. c.status.version) (sym e), ap (λ c. c.generation) (sym e))

  set_conditions_inv :
      (options : OperatorConfig) (d : Deployment) (name prefix : String) (c : OperatorConfig)
      → set_controller_manager_status_conditions api options d name prefix ≡ some c
      → (c.status.version ≡ options.status.version) × (c.generation ≡ options.generation)
  unfolding set_controller_manager_status_conditions
  set_conditions_inv options d name prefix c h =
      with_replicas_inv options d name prefix d.spec_replicas c h

  both_inv :
      (options : OperatorConfig) (route : Deployment) (o : Option OperatorConfig)
      (c : OperatorConfig)
      → both_conditions api options route o ≡ some c
      → (b : OperatorConfig) × (o ≡ some b)
        × (c.status.version ≡ b.status.version)
        × (c.generation ≡ b.generation)
  both_inv options route none c h = absurd (cc)
  both_inv options route (some b) c h =
      let (version, generation) =
        set_conditions_inv b route "route controller manager" route_condition_prefix c h in
      (b, refl, version, generation)

  return_inv :
      (g r : Gathered) (d route : Deployment) (options : OperatorConfig) (o : Option OperatorConfig)
      (v : W) {x : Result Bool × W}
      → return_with api g r d route options o v ≡ some x
      → (c : OperatorConfig) × (o ≡ some c)
        × (sync_return api g.errors r.errors options (seal api d route c) v ≡ some x)
  return_inv g r d route options none v h = absurd (cc)
  return_inv g r d route options (some c) v h = (c, refl, h)

  set_version-generation :
      (options : OperatorConfig) (d : Deployment)
      → (set_version api options d).generation ≡ options.generation
  unfolding set_version
  set_version-generation options d = ground arith

  publish_inv :
      (g r : Gathered) (d route : Deployment) (options : OperatorConfig) (v : W)
      {x : Result Bool × W}
      → publish api g r d route options v ≡ some x
      → (final : OperatorConfig) × (final.status.observed_generation ≡ options.generation)
        × (final.status.version ≡ (set_version api options d).status.version)
        × (sync_return api g.errors r.errors options final v ≡ some x)
  unfolding publish
  publish_inv g r d route options v h =
      let (c, both, returned) = return_inv g r d route options _ v h in
      let (b, first, version, generation) = both_inv options route _ c both in
      let (version_b, generation_b) = set_conditions_inv _ d _ _ b first in
      (
        seal api d route c,
        generation ∙ generation_b ∙ set_version-generation options d,
        version ∙ version_b,
        returned,
      )

  finish_inv :
      (f f' : Fault → Fault) (g r : Gathered) (options : OperatorConfig) (x y : Result Deployment)
      (v : W) {w' : W}
      → finish_sync api (gather_deployment f x g) (gather_deployment f' y r) options x y v
        ≡ some (ok false, w')
      → (d route : Deployment) × (x ≡ ok d)
        × (y ≡ ok route)
        × (publish api g r d route options v ≡ some (ok false, w'))
  finish_inv f f' g r options (ok d) (ok route) v h = (d, route, refl, refl, h)
  finish_inv f f' g r options (ok d) (err e) v h =
      absurd (append_ne_nil r.errors (f' e) (sync_return-false g.errors _ options options v h).1)
  finish_inv f f' g r options (err e) (ok route) v h =
      absurd (append_ne_nil g.errors (f e) (sync_return-false _ r.errors options options v h).0)
  finish_inv f f' g r options (err e) (err e') v h =
      absurd (append_ne_nil g.errors (f e) (sync_return-false _ _ options options v h).0)

  -- A sync that asks for no other sync has synced every ConfigMap and applied both deployments, in
  -- this order and each with success, the pod templates annotated with the versions of the
  -- ConfigMaps that they read; it then reported a status without errors, with the generation that it
  -- has observed and the version of the deployment, and the result is that of the report.
  pub sync_to_latest-false :
      (images : Images) (options : OperatorConfig) (w : W) {w' : W}
      → sync_to_latest api images options w ≡ some (ok false, w')
      → (g r : Gathered) × (u v x : W) × (d route : Deployment) × Gathering api options w u g r
        × (manage_deployment api options images.target options.status.generations g.annotations u
            ≡ some (ok d, v))
        × (manage_route_deployment api options images.route_target options.status.generations
              r.annotations v
            ≡ some (ok route, x))
        × (final : OperatorConfig) × (final.status.observed_generation ≡ options.generation)
        × (final.status.version ≡ (set_version api options d).status.version)
        × (sync_return api [] [] options final x ≡ some (ok false, w'))
  unfolding sync_to_latest
  sync_to_latest-false images options w h =
      let (g, u1, gather_g, h1) = bind_inv (gather_operand api options) _ w h in
      let (r, u, gather_r, h2) = bind_inv (gather_route api options) _ u1 h1 in
      let (dx, v, deployed, h3) =
        attempt_inv
          (manage_deployment api options images.target options.status.generations g.annotations) _ u
          h2 in
      let (rx, x, route_deployed, h4) =
        attempt_inv
          (manage_route_deployment api options images.route_target options.status.generations
            r.annotations)
          _ v h3 in
      let (d, route, is_d, is_route, published) = finish_inv _ _ g r options dx rx x h4 in
      let (final, generation, version, returned) = publish_inv g r d route options x published in
      let (no_g, no_r) = sync_return-false g.errors r.errors options final x returned in
      (
        g,
        r,
        u,
        v,
        x,
        d,
        route,
        gather-Gathering api options w u1 u g r gather_g gather_r no_g no_r,
        rw is_d at deployed,
        rw is_route at route_deployed,
        final,
        generation,
        version,
        rw (no_g, no_r) at returned,
      )
