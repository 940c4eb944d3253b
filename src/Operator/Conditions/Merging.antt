-- ===== src/Operator/Conditions/Merging.antt =====
-- Several conditions that are set in a row.
use cluster_openshift_contro.Common.{
  String, List, [], ◌∷◌, some, Bool, true, false, ◌≡◌, refl, arith, ◌&&◌, not, map, member, eq_iff,
  All, ◌∙◌,
}
use cluster_openshift_contro.Operator.Types.{OperatorCondition}
use cluster_openshift_contro.Operator.Api.{Api, IsLawful, find_condition}

abbrev pub distinct : List String → Bool
distinct [] = true
distinct (x ∷ xs) = not (member x xs) && distinct xs

abbrev pub kinds : List OperatorCondition → List String
kinds cs = map (λ c. c.kind) cs

module _ {W : Type 0} (api : Api W) where
  abbrev pub set_all : List OperatorCondition → List OperatorCondition → List OperatorCondition
  set_all [] cs = cs
  set_all (c ∷ more) cs = set_all more (api.set_operator_condition cs c)

module _ {W : Type 0} (api : Api W) (lawful : IsLawful api) where
  set_all-find_ne :
      (more cs : List OperatorCondition) (kind : String)
      → member kind (kinds more) ≡ false
      → find_condition kind (set_all api more cs) ≡ find_condition kind cs
  set_all-find_ne [] cs kind h = refl
  set_all-find_ne (c ∷ more) cs kind h =
      set_all-find_ne more (api.set_operator_condition cs c) kind (ground (arith, h))
      ∙ ground (arith, h, lawful.find_set cs c kind, eq_iff c.kind kind, eq_iff kind c.kind)

  set_all-found :
      (more cs : List OperatorCondition)
      → distinct (kinds more) ≡ true
      → All (λ c. find_condition c.kind (set_all api more cs) ≡ some c) more
  set_all-found [] cs h = tt
  set_all-found (c ∷ more) cs h = (
    set_all-find_ne more (api.set_operator_condition cs c) c.kind (ground (arith, h))
        ∙ ground (arith, lawful.find_set cs c c.kind, eq_iff c.kind c.kind),
    set_all-found more (api.set_operator_condition cs c) (ground (arith, h)),
  )

  set_all_same :
      (more cs : List OperatorCondition)
      → All (λ c. find_condition c.kind cs ≡ some c) more
      → set_all api more cs ≡ cs
  set_all_same [] cs h = refl
  set_all_same (c ∷ more) cs (found, h) = rw (lawful.set_same cs c found) (set_all_same more cs h)

  -- Setting conditions of different types a second time changes nothing.
  pub set_all_idem :
      (more cs : List OperatorCondition)
      → distinct (kinds more) ≡ true
      → set_all api more (set_all api more cs) ≡ set_all api more cs
  set_all_idem more cs h = set_all_same more (set_all api more cs) (set_all-found more cs h)
