-- ===== src/Operator/Sync/Settling.antt =====
-- The reported status settles.
use cluster_openshift_contro.Common.{
  String, List, [], ◌∷◌, Option, some, Bool, true, ◌≡◌, ◌≢◌, refl, ap, arith, ◌||◌, ◌&&◌, not,
  Bool-cases, inl, inr, ◌∙◌, is_empty, if◌then◌else◌, eq_iff, ◌<>◌,
}
use cluster_openshift_contro.Common.Fault.{Result, ok}
use cluster_openshift_contro.Common.Int.{ℤ, int_eq}
use cluster_openshift_contro.Operator.Types.{
  condition_true, OperatorCondition, OperatorStatus, OperatorConfig, Deployment, GenerationStatus,
}
use cluster_openshift_contro.Operator.Api.{Api, IsLawful, find_generation, generation_of}
use cluster_openshift_contro.Operator.Conditions.{
  available, version_of, version_messages, progressing_messages, available_condition,
  progressing_condition, condition, set_controller_manager_status_conditions,
}
use cluster_openshift_contro.Operator.Conditions.Progress.{kind-available, kind-progressing}
use cluster_openshift_contro.Operator.Conditions.Merging.{distinct, kinds, set_all, set_all_idem}
use cluster_openshift_contro.Operator.Sync.{
  Gathered, is_nonempty, sync_return, written, publish, set_version, degraded_condition,
  workload_degraded_condition, route_condition_prefix,
}
use cluster_openshift_contro.Operator.Sync.Degraded.{kind-degraded}

abbrev status_of : ℤ → List OperatorCondition → String → List GenerationStatus → OperatorStatus
status_of o cs v gs = record {
  observed_generation = o;
  conditions = cs;
  version = v;
  generations = gs;
}

status_eq :
    {o : ℤ} {cs cs' : List OperatorCondition} {v v' : String} {gs gs' : List GenerationStatus}
    → cs ≡ cs'
    → v ≡ v'
    → gs ≡ gs'
    → status_of o cs v gs ≡ status_of o cs' v' gs'
status_eq {o} p q r = λ i. status_of o (p i) (q i) (r i)

module _ (d : Deployment) where
  abbrev has_version : Bool
  has_version =
      available d && int_eq d.updated_replicas d.status_replicas && not (is_empty (version_of d))

  abbrev new_version : OperatorConfig → String
  new_version c = if has_version then version_of d else c.status.version

  -- the configuration with the version of the deployment
  abbrev versioned : OperatorConfig → OperatorConfig
  versioned c = record c { status = record c.status { version = new_version c } }

module _ {W : Type 0} (api : Api W) where
  -- the status is written if it differs from the one before
  abbrev pub report : Bool → OperatorConfig → OperatorConfig → W → Option (Result Bool × W)
  report requeue c c' w =
      if api.same_status c'.status c.status
      then some (ok requeue, w)
      else written api requeue (api.update_status c' w)

  set_version-versioned :
      (c : OperatorConfig) (d : Deployment) → set_version api c d ≡ versioned d c
  unfolding set_version
  set_version-versioned c d = elim (Bool-cases (has_version d)) [
    | inl on ↦ rw on refl
    | inr off ↦ rw off refl
  ]

  -- To record the generations of two deployments a second time changes nothing.
  generations_idem :
      IsLawful api
      → (gs : List GenerationStatus) (d route : Deployment) → d.name ≢ route.name
      → api.set_deployment_generation
          (api.set_deployment_generation
            (api.set_deployment_generation (api.set_deployment_generation gs d) route)
            d)
          route
        ≡ api.set_deployment_generation (api.set_deployment_generation gs d) route
  generations_idem lawful gs d route differ =
      let first = api.set_deployment_generation gs d in
      let both = api.set_deployment_generation first route in
      let found_d : find_generation d.namespace d.name both ≡ some (generation_of d) = ground (
        arith,
        differ,
        lawful.find_set_generation first route d.namespace d.name,
        lawful.find_set_generation gs d d.namespace d.name,
        eq_iff route.name d.name,
        eq_iff d.name d.name,
        eq_iff d.namespace d.namespace,
      ) in
      let found_route : find_generation route.namespace route.name both
          ≡ some (generation_of route) =
        ground (
          arith,
          lawful.find_set_generation first route route.namespace route.name,
          eq_iff route.name route.name,
          eq_iff route.namespace route.namespace,
        ) in
      rw (lawful.set_same_generation both d found_d)
        (lawful.set_same_generation both route found_route)

module _ {W : Type 0} (api : Api W) (g r : Gathered) (d route : Deployment) (n m : ℤ) where
  -- The conditions that a sync sets, in their order.
  abbrev reported_conditions : OperatorConfig → List OperatorCondition
  reported_conditions c =
      available_condition d "openshift controller manager" ""
      ∷ progressing_condition (progressing_messages (versioned d c) d n) ""
      ∷ available_condition route "route controller manager" route_condition_prefix
      ∷ progressing_condition (progressing_messages (versioned d c) route m) route_condition_prefix
      ∷ condition "Upgradeable" condition_true "" ""
      ∷ degraded_condition g.errors workload_degraded_condition
      ∷ degraded_condition r.errors (route_condition_prefix <> "Degraded")
      ∷ []

  abbrev reported : OperatorConfig → OperatorConfig
  reported c = record c {
    status = record {
      observed_generation = c.generation;
      conditions = set_all api (reported_conditions c) c.status.conditions;
      version = new_version d c;
      generations =
          api.set_deployment_generation (api.set_deployment_generation c.status.generations d)
            route;
    };
  }

  abbrev requeue : Bool
  requeue = is_nonempty g.errors || is_nonempty r.errors

  settled :
      (c' : OperatorConfig) (w : W)
      → api.same_status (reported c').status c'.status ≡ true
      → report api requeue c' (reported c') w ≡ some (ok requeue, w)
  settled c' w h = rw h refl

  conditions_distinct : (c : OperatorConfig) → distinct (kinds (reported_conditions c)) ≡ true
  conditions_distinct c =
      rw
        (
          kind-available d "openshift controller manager" "",
          kind-progressing (progressing_messages (versioned d c) d n) "",
          kind-available route "route controller manager" route_condition_prefix,
          kind-progressing (progressing_messages (versioned d c) route m) route_condition_prefix,
          kind-degraded g.errors workload_degraded_condition,
          kind-degraded r.errors (route_condition_prefix <> "Degraded"),
        )
        refl

  module _ (desired_d : d.spec_replicas ≡ some n)
      (desired_route : route.spec_replicas ≡ some m) where
    publish-report :
        (c : OperatorConfig) (w : W)
        → publish api g r d route c w ≡ report api requeue c (reported c) w
    unfolding publish set_controller_manager_status_conditions sync_return progressing_messages
        version_messages
    publish-report c w = rw (set_version-versioned api c d, desired_d, desired_route) refl

    -- After one report, the conditions to report depend on what reports leave alone.
    reported_conditions_fixed :
        (c : OperatorConfig)
        → reported_conditions (reported (reported c)) ≡ reported_conditions (reported c)
    unfolding progressing_messages version_messages
    reported_conditions_fixed c = elim (Bool-cases (has_version d)) [
      | inl on ↦ rw on refl
      | inr off ↦ rw off refl
    ]

    new_version_fixed : (c : OperatorConfig) → new_version d (reported c) ≡ new_version d c
    new_version_fixed c = elim (Bool-cases (has_version d)) [
      | inl on ↦ rw on refl
      | inr off ↦ rw off refl
    ]

    module _ (lawful : IsLawful api) (differ : d.name ≢ route.name) where
      reported_fixed :
          (c : OperatorConfig)
          → (reported (reported (reported c))).status ≡ (reported (reported c)).status
      reported_fixed c =
          let again = reported c in
          let cs = again.status.conditions in
          status_eq
            (ap (λ l. set_all api l (reported again).status.conditions)
                (reported_conditions_fixed c)
              ∙ set_all_idem api lawful (reported_conditions again) cs (conditions_distinct again))
            (new_version_fixed again)
            (generations_idem api lawful again.status.generations d route differ)

      -- With deployments of different names whose desired numbers of replicas are known, and with
      -- the errors that were gathered, the status settles: a first and a second report change
      -- nothing but the status of the configuration and are each written once if they differ from
      -- the status that they start from; the report on the status of the second one is that
      -- status, and nothing is written. Each asks for another sync if an error was gathered.
      pub publish-settles :
          (c : OperatorConfig) (w1 w2 w3 : W)
          → (c1 c2 : OperatorConfig) × (c1 ≡ record c { status = c1.status })
            × (c2 ≡ record c { status = c2.status })
            × (publish api g r d route c w1
                ≡ report api (is_nonempty g.errors || is_nonempty r.errors) c c1 w1)
            × (publish api g r d route c1 w2
                ≡ report api (is_nonempty g.errors || is_nonempty r.errors) c1 c2 w2)
            × (publish api g r d route c2 w3
                ≡ some (ok (is_nonempty g.errors || is_nonempty r.errors), w3))
      publish-settles c w1 w2 w3 =
          let last = reported (reported c) in
          (
            reported c,
            last,
            refl,
            refl,
            publish-report c w1,
            publish-report (reported c) w2,
            publish-report last w3
                ∙ settled last w3 (
                    (lawful.same_status_iff (reported last).status last.status).1
                      (reported_fixed c)),
          )
