-- ===== src/Operator/Sync/Degraded.antt =====
-- What `sync_return` reports and writes.
use cluster_openshift_contro.Common.{
  String, List, [], ◌∷◌, some, Bool, ◌≡◌, ◌≢◌, ◌↔◌, ◌⊎◌, inl, inr, refl, arith, ◌||◌, ◌<>◌, eq_iff,
  Bool-cases,
}
use cluster_openshift_contro.Common.Fault.{Fault, ok}
use cluster_openshift_contro.Operator.Types.{condition_false, OperatorCondition, OperatorConfig}
use cluster_openshift_contro.Operator.Api.{Api, IsLawful, find_condition}
use cluster_openshift_contro.Operator.Sync.{
  degraded_condition, workload_degraded_condition, route_condition_prefix, is_nonempty,
  set_degraded, sync_return, written,
}

pub kind-degraded : (es : List Fault) (kind : String) → (degraded_condition es kind).kind ≡ kind
unfolding degraded_condition
kind-degraded [] kind = refl
kind-degraded (e ∷ es) kind = refl

degraded_condition-false :
    (es : List Fault) (kind : String)
    → ((degraded_condition es kind).status ≡ condition_false) ↔ (es ≡ [])
unfolding degraded_condition
degraded_condition-false [] kind = (λ _. refl, λ _. refl)
degraded_condition-false (e ∷ es) kind = (λ h. absurd (cc), λ h. absurd (cc))

-- the two types of condition differ
degraded_kinds : workload_degraded_condition ≢ route_condition_prefix <> "Degraded"
degraded_kinds e = ground (arith, eq_iff "WorkloadDegraded" "RouteControllerManagerDegraded")

module _ {W : Type 0} (api : Api W) (lawful : IsLawful api) (errors route_errors : List Fault)
    (original config : OperatorConfig) where
  abbrev route_degraded_condition : String
  route_degraded_condition = route_condition_prefix <> "Degraded"

  abbrev reported : OperatorConfig
  reported = set_degraded api errors route_errors config

  abbrev requeue : Bool
  requeue = is_nonempty errors || is_nonempty route_errors

  found_workload :
      find_condition workload_degraded_condition reported.status.conditions
      ≡ some (degraded_condition errors workload_degraded_condition)
  found_workload =
      let first = degraded_condition errors workload_degraded_condition in
      let second = degraded_condition route_errors route_degraded_condition in
      let cs = config.status.conditions in
      ground (
        arith,
        lawful.find_set (api.set_operator_condition cs first) second workload_degraded_condition,
        lawful.find_set cs first workload_degraded_condition,
        kind-degraded errors workload_degraded_condition,
        kind-degraded route_errors route_degraded_condition,
        eq_iff first.kind workload_degraded_condition,
        eq_iff second.kind workload_degraded_condition,
        degraded_kinds,
      )

  found_route :
      find_condition route_degraded_condition reported.status.conditions
      ≡ some (degraded_condition route_errors route_degraded_condition)
  found_route =
      let first = degraded_condition errors workload_degraded_condition in
      let second = degraded_condition route_errors route_degraded_condition in
      let cs = config.status.conditions in
      ground (
        arith,
        lawful.find_set (api.set_operator_condition cs first) second route_degraded_condition,
        kind-degraded route_errors route_degraded_condition,
        eq_iff second.kind route_degraded_condition,
      )

  -- The status that is reported has both degraded conditions, each false exactly if its operand had
  -- no error; if it is the original status, nothing is written and the result says whether there
  -- was an error; otherwise it is written once, and the result says so or is the error of the write.
  pub sync_return_lem :
      (w : W)
      → (reported : OperatorConfig) × (workload route : OperatorCondition) × (find_condition
            workload_degraded_condition reported.status.conditions
          ≡ some workload)
        × ((workload.status ≡ condition_false) ↔ (errors ≡ []))
        × (find_condition (route_condition_prefix <> "Degraded") reported.status.conditions
            ≡ some route)
        × ((route.status ≡ condition_false) ↔ (route_errors ≡ []))
        × ((reported.status ≡ original.status)
              × (sync_return api errors route_errors original config w
                  ≡ some (ok (is_nonempty errors || is_nonempty route_errors), w))
            ⊎ (reported.status ≢ original.status)
              × (sync_return api errors route_errors original config w
                  ≡ written api
                      (is_nonempty errors || is_nonempty route_errors)
                      (api.update_status reported w)))
  unfolding sync_return
  sync_return_lem w = (
    reported,
    degraded_condition errors workload_degraded_condition,
    degraded_condition route_errors route_degraded_condition,
    found_workload,
    degraded_condition-false errors workload_degraded_condition,
    found_route,
    degraded_condition-false route_errors route_degraded_condition,
    elim (Bool-cases (api.same_status reported.status original.status)) [
      | inl same ↦
          inl ((lawful.same_status_iff reported.status original.status).0 same, rw same refl)
      | inr differs ↦ inr (
        λ e. ground (arith, (lawful.same_status_iff reported.status original.status).1 e, differs),
        rw differs refl,
      )
    ],
  )
