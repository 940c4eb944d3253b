-- ===== src/Operator/Starter/Run/Order.antt =====
-- What has happened when `RunOperator` returns.
use cluster_openshift_contro.Common.{
  List, [], ◌∷◌, ◌++◌, some, Bool, true, false, ◌≡◌, ap, ◌⊎◌, inl, inr, refl, Bool-cases, any, not,
  ◌&&◌, arith, if◌then◌else◌,
}
use cluster_openshift_contro.Common.Fault.{Fault, Result, ok, err, errorf, Result-cases}
use cluster_openshift_contro.Cluster.{ClusterVersion, capability_enabled}
use cluster_openshift_contro.Names.{capability_build}
use cluster_openshift_contro.Operator.Starter.{build_capability_enabled, capability_changed}
use cluster_openshift_contro.Operator.Starter.Run.{
  Environment, Started, feature_gate_accessor, config_informers, daemon_set_cleanup,
  operator_config_informers, kube_informers, static_resource_controller, operator_controller,
  resource_syncer, config_observer, user_ca_observer, cluster_operator_status, log_level_controller,
  image_pull_secret_cleanup, capability_checker, high_rate_limits, controllers, run_operator,
  gates_timeout, caches_timeout,
}

-- Everything that is started, in its order, with the capability Build and without it.
abbrev pub everything : Bool → List Started
everything true =
    feature_gate_accessor
    ∷ config_informers
    ∷ daemon_set_cleanup
    ∷ operator_config_informers
    ∷ kube_informers
    ∷ config_informers
    ∷ static_resource_controller
    ∷ operator_controller
    ∷ resource_syncer
    ∷ config_observer true
    ∷ user_ca_observer
    ∷ cluster_operator_status
    ∷ log_level_controller
    ∷ image_pull_secret_cleanup
    ∷ []
everything false =
    feature_gate_accessor
    ∷ config_informers
    ∷ daemon_set_cleanup
    ∷ operator_config_informers
    ∷ kube_informers
    ∷ config_informers
    ∷ static_resource_controller
    ∷ operator_controller
    ∷ resource_syncer
    ∷ config_observer false
    ∷ user_ca_observer
    ∷ cluster_operator_status
    ∷ log_level_controller
    ∷ image_pull_secret_cleanup
    ∷ capability_checker
    ∷ []

-- The answers of the lister that show the capability Build.
abbrev pub shows_build : Result ClusterVersion → Bool
shows_build (err e) = false
shows_build (ok cv) = capability_enabled capability_build cv

capability_changed-any :
    (ticks : List (Result ClusterVersion)) → capability_changed ticks ≡ any shows_build ticks
unfolding capability_changed build_capability_enabled capability_enabled
capability_changed-any [] = refl
capability_changed-any (err e ∷ ticks) = capability_changed-any ticks
capability_changed-any (ok cv ∷ ticks) = rw (capability_changed-any ticks) refl

module _ {Q : Type 0} (env : Environment Q) where
  -- All that is waited for was there, with the ClusterVersion.
  pub record IsReady (cv : ClusterVersion) : Type 0 where
    pub kube_client : env.kube_client (high_rate_limits env) ≡ ok tt
    pub operator_client : env.operator_client ≡ ok tt
    pub config_client : env.config_client ≡ ok tt
    pub gates_observed : env.gates_observed ≡ true
    pub caches_synced : env.caches_synced ≡ true
    pub cluster_version : env.cluster_version ≡ ok cv

  abbrev early : List Started
  early = feature_gate_accessor ∷ config_informers ∷ []

  -- What is started, and why the run ends, where all that is waited for is there.
  abbrev all_started : ClusterVersion → List Started
  all_started cv = everything (capability_enabled capability_build cv)

  controllers-everything : (b : Bool) → early ++ controllers env b ≡ everything b
  controllers-everything true = refl
  controllers-everything false = refl

  abbrev reason : ClusterVersion → Fault
  reason cv =
      if not (capability_enabled capability_build cv) && any shows_build env.ticks
      then errorf "capability is enabled, stopping"
      else errorf "stopped"

  abbrev Outcome : Fault → List Started → Type 0
  Outcome e started =
      ((started ≡ []) ⊎ (started ≡ early)) × ¬ ((cv : ClusterVersion) × IsReady cv)
      ⊎ ((cv : ClusterVersion) × IsReady cv × (started ≡ all_started cv) × (e ≡ reason cv))

  abbrev Run : Type 0
  Run =
      (e : Fault) × (started : List Started) × (run_operator env [] ≡ some (err e, started))
      × Outcome e started

  module _ (h1 : env.kube_client (high_rate_limits env) ≡ ok tt) (h2 : env.operator_client ≡ ok tt)
      (h3 : env.config_client ≡ ok tt) where
    ran :
        (cv : ClusterVersion)
        → env.cluster_version ≡ ok cv
        → env.caches_synced ≡ true
        → env.gates_observed ≡ true
        → run_operator env [] ≡ some (err (reason cv), all_started cv)
    unfolding run_operator build_capability_enabled
    ran cv h6 h5 h4 =
        rw (h1, h2, h3, h4, h5, h6, capability_changed-any env.ticks)
          (ap (λ l. some (err (reason cv), l))
            (controllers-everything (capability_enabled capability_build cv)))

    with_clients : Run
    unfolding run_operator build_capability_enabled
    with_clients = elim (Bool-cases env.gates_observed) [
      | inr h4 ↦ (
        errorf gates_timeout,
        early,
        rw (h1, h2, h3, h4) refl,
        inl (inr refl, λ (cv, ready). ground (arith, ready.gates_observed, h4)),
      )
      | inl h4 ↦ elim (Bool-cases env.caches_synced) [
        | inr h5 ↦ (
          errorf caches_timeout,
          early,
          rw (h1, h2, h3, h4, h5) refl,
          inl (inr refl, λ (cv, ready). ground (arith, ready.caches_synced, h5)),
        )
        | inl h5 ↦ elim (Result-cases env.cluster_version) [
          | inr (e, h6) ↦ (
            e,
            early,
            rw (h1, h2, h3, h4, h5, h6) refl,
            inl (inr refl, λ (cv, ready). ground (arith, ready.cluster_version, h6)),
          )
          | inl (cv, h6) ↦ (
            reason cv,
            all_started cv,
            ran cv h6 h5 h4,
            inr (
              cv,
              record {
                kube_client = h1;
                operator_client = h2;
                config_client = h3;
                gates_observed = h4;
                caches_synced = h5;
                cluster_version = h6;
              },
              refl,
              refl,
            ),
          )
        ]
      ]
    ]

  -- RunOperator returns with an error. If it has not found all that it waits for, it has started
  -- nothing, or no more than the feature gates and the informers of the configuration. Otherwise it
  -- has started everything, the observer of builds exactly if the ClusterVersion has the capability
  -- Build, and it returns because the capability is enabled exactly if it was not at the start and a
  -- later answer of the lister shows it.
  pub run_operator_lem :
      (e : Fault) × (started : List Started) × (run_operator env [] ≡ some (err e, started))
      × (((started ≡ []) ⊎ (started ≡ feature_gate_accessor ∷ config_informers ∷ []))
            × ¬ ((cv : ClusterVersion) × IsReady cv)
          ⊎ ((cv : ClusterVersion) × IsReady cv
              × (started ≡ everything (capability_enabled capability_build cv))
              × (e ≡ (
                  if not (capability_enabled capability_build cv) && any shows_build env.ticks
                  then errorf "capability is enabled, stopping"
                  else errorf "stopped"))))
  unfolding run_operator
  run_operator_lem = elim (Result-cases (env.kube_client (high_rate_limits env))) [
    | inr (e, h1) ↦
        (e, [], rw h1 refl, inl (inl refl, λ (cv, ready). ground (arith, ready.kube_client, h1)))
    | inl (_, h1) ↦ elim (Result-cases env.operator_client) [
      | inr (e, h2) ↦ (
        e,
        [],
        rw (h1, h2) refl,
        inl (inl refl, λ (cv, ready). ground (arith, ready.operator_client, h2)),
      )
      | inl (_, h2) ↦ elim (Result-cases env.config_client) [
        | inr (e, h3) ↦ (
          e,
          [],
          rw (h1, h2, h3) refl,
          inl (inl refl, λ (cv, ready). ground (arith, ready.config_client, h3)),
        )
        | inl (_, h3) ↦ with_clients h1 h2 h3
      ]
    ]
  ]
