-- ===== src/Registry/State.antt =====
-- What the answer of `image_registry_is_enabled` depends on.
use cluster_openshift_contro.Common.{
  ◌≡◌, ◌↔◌, ◌⊎◌, inl, inr, List, [], ◌∷◌, false, refl, arith, eq_iff, member, Bool-cases,
}
use cluster_openshift_contro.Common.Fault.{Result, ok, err, Result-cases}
use cluster_openshift_contro.Names.{capability_image_registry}
use cluster_openshift_contro.Cluster.{Lister, ClusterVersion, ClusterOperator, StatusCondition}
use cluster_openshift_contro.Registry.{not_removed, registry_state, image_registry_is_enabled}

-- The operator's object is there and its first condition has the reason Removed.
abbrev pub IsRemoved : Result ClusterOperator → Type 0
IsRemoved r =
    (co : ClusterOperator) × (c : StatusCondition) × (cs : List StatusCondition) × (r ≡ ok co)
    × (co.conditions ≡ c ∷ cs)
    × (c.reason ≡ "Removed")

not_removed-false :
    (cs : List StatusCondition)
    → not_removed cs ≡ false
    → (c : StatusCondition) × (rest : List StatusCondition) × (cs ≡ c ∷ rest)
      × (c.reason ≡ "Removed")
unfolding not_removed
not_removed-false [] h = absurd (ground arith)
not_removed-false (c ∷ cs) h = (c, cs, refl, ground (arith, eq_iff c.reason "Removed"))

pub registry_state-false : (r : Result ClusterOperator) → registry_state r ≡ false → IsRemoved r
unfolding registry_state
registry_state-false (ok co) h =
    let (c, cs, e, reason) = not_removed-false co.conditions h in (co, c, cs, refl, e, reason)
registry_state-false (err e) h = absurd (ground arith)

pub registry_state_removed : (r : Result ClusterOperator) → IsRemoved r → registry_state r ≡ false
unfolding registry_state
registry_state_removed (ok co') (co, c, cs, e, shape, reason) =
    ground (arith, eq_iff c.reason "Removed")
registry_state_removed (err f) (co, c, cs, e, shape, reason) = absurd (ground arith)

module _ (cvs : Lister ClusterVersion) (cos : Lister ClusterOperator) where
  -- The registry counts as disabled exactly if the ClusterVersion can be read and either the
  -- capability ImageRegistry is not enabled, or the ClusterOperator image-registry can be read and
  -- its first condition has the reason Removed. Any other state of the ClusterOperator, an error of
  -- its lister included, leaves the registry enabled.
  pub image_registry_is_enabled-false : (image_registry_is_enabled cvs cos ≡ ok false) ↔ (
      (cv : ClusterVersion) × (cvs "version" ≡ ok cv)
      × ((member capability_image_registry cv.enabled_capabilities ≡ false)
          ⊎ IsRemoved (cos "image-registry")))
  unfolding image_registry_is_enabled
  image_registry_is_enabled-false = (
    λ h. elim (Result-cases (cvs "version")) [
      | inl (cv, e) ↦ (
        cv,
        e,
        elim (Bool-cases (member capability_image_registry cv.enabled_capabilities)) [
          | inl on ↦ inr (registry_state-false (cos "image-registry") (ground arith))
          | inr off ↦ inl off
        ],
      )
      | inr (f, e) ↦ absurd (ground arith)
    ],
    λ (cv, e, why). elim why [
      | inl off ↦ rw (e, off)
      | inr removed ↦ rw (e, registry_state_removed (cos "image-registry") removed) (ground arith)
    ],
  )
