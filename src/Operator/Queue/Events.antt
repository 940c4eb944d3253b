-- ===== src/Operator/Queue/Events.antt =====
-- Which events of namespaces queue the operator's key.
use cluster_openshift_contro.Common.{
  String, [], ◌∷◌, Bool, true, false, ◌≡◌, ◌≢◌, ◌↔◌, ◌⊎◌, inl, inr, refl, arith, ◌==◌, eq_iff,
  Bool-cases, ap,
}
use cluster_openshift_contro.Operator.Queue.{
  add, EventObject, namespace_object, tombstone, other_object, handled, panicked, namespace_added,
  namespace_updated, namespace_deleted,
}

abbrev pub is_namespace : EventObject → Bool
is_namespace (namespace_object name) = true
is_namespace (tombstone object) = false
is_namespace other_object = false

-- A deleted object queues the key exactly if it is the Namespace that is watched, or the tombstone of
-- it; anything else is handled without a call.
pub namespace_deleted-add :
    (target : String) (object : EventObject)
    → ((namespace_deleted target object ≡ handled (add ∷ []))
        ↔ ((object ≡ namespace_object target) ⊎ (object ≡ tombstone (namespace_object target))))
      × ((namespace_deleted target object ≡ handled (add ∷ []))
          ⊎ (namespace_deleted target object ≡ handled []))
unfolding namespace_deleted
namespace_deleted-add target (namespace_object name) = elim (Bool-cases (name == target)) [
  | inl same ↦
      rw same ((λ _. inl (ap namespace_object ((eq_iff name target).0 same)), λ _. refl), inl refl)
  | inr other ↦
      rw other ((λ h. absurd (cc), λ e. absurd (ground (arith, eq_iff name target))), inr refl)
]
namespace_deleted-add target (tombstone (namespace_object name)) =
    elim (Bool-cases (name == target)) [
      | inl same ↦ rw same (
        (
          λ _. inr (ap (λ n. tombstone (namespace_object n)) ((eq_iff name target).0 same)),
          λ _. refl,
        ),
        inl refl,
      )
      | inr other ↦
          rw other ((λ h. absurd (cc), λ e. absurd (ground (arith, eq_iff name target))), inr refl)
    ]
namespace_deleted-add target (tombstone (tombstone object)) =
    ((λ h. absurd (cc), λ e. absurd (ground arith)), inr refl)
namespace_deleted-add target (tombstone other_object) =
    ((λ h. absurd (cc), λ e. absurd (ground arith)), inr refl)
namespace_deleted-add target other_object =
    ((λ h. absurd (cc), λ e. absurd (ground arith)), inr refl)

-- For an added object, and for the old one of an update: the key is queued and the handler returns
-- exactly if it is the Namespace that is watched; the key is queued and the handler panics exactly if
-- it is not a Namespace; and nothing is queued exactly if it is another Namespace.
pub namespace_updated-add :
    (target : String) (old new : EventObject)
    → ((namespace_updated target old new ≡ handled (add ∷ [])) ↔ (old ≡ namespace_object target))
      × ((namespace_updated target old new ≡ panicked (add ∷ [])) ↔ (is_namespace old ≡ false))
      × ((namespace_updated target old new ≡ handled [])
          ↔ ((name : String) × (old ≡ namespace_object name) × (name ≢ target)))
      × (namespace_updated target old new ≡ namespace_added target old)
unfolding namespace_updated
namespace_updated-add target (namespace_object name) new = elim (Bool-cases (name == target)) [
  | inl same ↦ rw same (
    (λ _. ap namespace_object ((eq_iff name target).0 same), λ _. refl),
    (λ h. absurd (cc), λ h. absurd (cc)),
    (λ h. absurd (cc), λ (other, e, different). absurd (ground (arith, eq_iff name target))),
    refl,
  )
  | inr other ↦ rw other (
    (λ h. absurd (cc), λ e. absurd (ground (arith, eq_iff name target))),
    (λ h. absurd (cc), λ h. absurd (cc)),
    (λ _. (name, refl, λ e. ground (arith, eq_iff name target)), λ _. refl),
    refl,
  )
]
namespace_updated-add target (tombstone object) new = (
  (λ h. absurd (cc), λ h. absurd (cc)),
  (λ _. refl, λ _. refl),
  (λ h. absurd (cc), λ (other, e, different). absurd (cc)),
  refl,
)
namespace_updated-add target other_object new = (
  (λ h. absurd (cc), λ h. absurd (cc)),
  (λ _. refl, λ _. refl),
  (λ h. absurd (cc), λ (other, e, different). absurd (cc)),
  refl,
)
