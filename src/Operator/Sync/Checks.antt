-- ===== src/Operator/Sync/Checks.antt =====
-- The reports of a sync in the cluster in memory.
use cluster_openshift_contro.Common.{
  String, List, [], ◌∷◌, Option, none, some, Bool, true, false, ◌≡◌, ◌≢◌, refl, arith, eq_iff,
}
use cluster_openshift_contro.Common.Fault.{Result, ok}
use cluster_openshift_contro.Common.Int.{pos, decimal}
use cluster_openshift_contro.Operator.Types.{OperatorStatus, OperatorConfig, Deployment}
use cluster_openshift_contro.Operator.Conditions.{
  join_lines, set_controller_manager_status_conditions,
}
use cluster_openshift_contro.Operator.Sync.{Gathered, publish, set_version}
use cluster_openshift_contro.Operator.Sync.Settling.{report, publish-settles}
use cluster_openshift_contro.Operator.Sample.{
  World, world, api, api-IsLawful, config, deployment, set_condition_in, set_generation_in,
}
use cluster_openshift_contro.Common.{lookup}

abbrev rolled_out : String → Deployment
rolled_out name = record (deployment "openshift-controller-manager" name) {
  spec_replicas = some (pos 3);
}

abbrev nothing_gathered : Gathered
nothing_gathered = record { errors = []; annotations = [] }

abbrev published : OperatorConfig → World → Option (Result Bool × World)
published = publish api nothing_gathered nothing_gathered (rolled_out "a") (rolled_out "b")

-- the configuration with the status that was written last
abbrev with_last : List OperatorStatus → OperatorConfig
with_last [] = config
with_last (s ∷ ss) = record config { status = s }

abbrev next : Option (Result Bool × World) → Option (Result Bool × World)
next none = none
next (some (r, w)) = published (with_last w.statuses) w

abbrev count : List OperatorStatus → List Bool
count [] = []
count (s ∷ ss) = true ∷ count ss

abbrev writes : Option (Result Bool × World) → List Bool
writes none = []
writes (some (r, w)) = count w.statuses

-- The second report clears the progressing conditions, which tell of the generation of the
-- configuration that the first has observed: both are written, and the third is not.
both_written : writes (next (next (published config (world [])))) ≡ true ∷ true ∷ []
unfolding publish set_condition_in set_generation_in lookup set_controller_manager_status_conditions
    set_version join_lines decimal
both_written = refl

names_differ : (rolled_out "a").name ≢ (rolled_out "b").name
names_differ e = ground (arith, eq_iff "a" "b")

publish-settles_example :
    (c1 c2 : OperatorConfig) × (c1 ≡ record config { status = c1.status })
    × (c2 ≡ record config { status = c2.status })
    × (published config (world []) ≡ report api false config c1 (world []))
    × (published c1 (world []) ≡ report api false c1 c2 (world []))
    × (published c2 (world []) ≡ some (ok false, world []))
publish-settles_example =
    publish-settles api nothing_gathered nothing_gathered (rolled_out "a") (rolled_out "b") (pos 3)
      (pos 3) refl refl api-IsLawful names_differ config (world []) (world []) (world [])
