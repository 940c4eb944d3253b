-- ===== src/Operator/Conditions/Progress.antt =====
-- When an operand counts as available and as progressing.
use package.text.Mathlib.TextLemmas.{append_cancel_left}
use cluster_openshift_contro.Common.{
  String, List, [], ◌∷◌, ◌++◌, some, true, false, ◌≡◌, ◌≢◌, ◌↔◌, ◌⊎◌, inl, inr, refl, sym, arith,
  ◌&&◌, ◌<>◌, is_empty, eq_iff, Bool-cases, ◌∙◌,
}
use cluster_openshift_contro.Common.Int.{ℤ, pos, int_eq, positive, int_eq_iff}
use cluster_openshift_contro.Operator.Types.{
  condition_true, condition_false, OperatorCondition, OperatorConfig, Deployment,
}
use cluster_openshift_contro.Operator.Api.{Api, IsLawful, find_condition}
use cluster_openshift_contro.Operator.Conditions.{
  available, version_of, version_messages, progressing_messages, available_condition,
  progressing_condition, set_condition, set_controller_manager_status_conditions,
}

-- The deployment has rolled out: both generations are observed, a replica is available, as many as
-- desired are updated, and the annotation of a deployment whose replicas are all updated is there
-- and agrees with the version of the operator, if that is known.
pub record IsSettled (config : OperatorConfig) (d : Deployment) (desired : ℤ) : Type 0 where
  pub version :
      ((available d && int_eq d.updated_replicas d.status_replicas) ≡ false)
      ⊎ ((version_of d ≢ "")
          × ((config.status.version ≡ "") ⊎ (config.status.version ≡ version_of d)))
  pub deployment_observed : d.generation ≡ d.observed_generation
  pub some_available : d.available_replicas ≢ pos 0
  pub updated : d.updated_replicas ≡ desired
  pub config_observed : config.generation ≡ config.status.observed_generation

abbrev IsVersioned : OperatorConfig → Deployment → Type 0
IsVersioned config d =
    ((available d && int_eq d.updated_replicas d.status_replicas) ≡ false)
    ⊎ ((version_of d ≢ "")
        × ((config.status.version ≡ "") ⊎ (config.status.version ≡ version_of d)))

version_messages-IsVersioned :
    (config : OperatorConfig) (d : Deployment)
    → version_messages config d ≡ []
    → IsVersioned config d
unfolding version_messages
version_messages-IsVersioned config d h =
    elim (Bool-cases (available d && int_eq d.updated_replicas d.status_replicas)) [
      | inr off ↦ inl off
      | inl on ↦ elim (Bool-cases (is_empty (version_of d))) [
        | inl none_there ↦ absurd (ground arith)
        | inr there ↦ inr (
          λ e. ground (arith, eq_iff (version_of d) ""),
          elim (Bool-cases (is_empty config.status.version)) [
            | inl unknown ↦ inl ((eq_iff config.status.version "").0 unknown)
            | inr known ↦ inr ((eq_iff config.status.version (version_of d)).0 (ground arith))
          ],
        )
      ]
    ]

IsVersioned-nil :
    (config : OperatorConfig) (d : Deployment)
    → IsVersioned config d
    → version_messages config d ≡ []
unfolding version_messages
IsVersioned-nil config d (inl off) = rw off refl
IsVersioned-nil config d (inr (there, inl unknown)) =
    ground (arith, there, eq_iff (version_of d) "", eq_iff config.status.version "")
IsVersioned-nil config d (inr (there, inr same)) =
    ground (arith, there, eq_iff (version_of d) "", eq_iff config.status.version (version_of d))

append-nil_iff : {A : Type 0} (xs ys : List A) → xs ++ ys ≡ [] → (xs ≡ []) × (ys ≡ [])
append-nil_iff [] ys h = (refl, h)
append-nil_iff (x ∷ xs) ys h = absurd (cc)

module _ (config : OperatorConfig) (d : Deployment) (desired : ℤ) where
  -- There is nothing to report exactly if the deployment has rolled out.
  messages-IsSettled : progressing_messages config d desired ≡ [] → IsSettled config d desired
  unfolding progressing_messages
  messages-IsSettled h =
      let (versions, rest) = append-nil_iff (version_messages config d) _ h in
      record {
        version = version_messages-IsVersioned config d versions;
        deployment_observed = ground (arith, int_eq_iff d.generation d.observed_generation);
        some_available = λ e. ground (arith, int_eq_iff d.available_replicas (pos 0));
        updated = ground (arith, int_eq_iff d.updated_replicas desired);
        config_observed =
            ground (arith, int_eq_iff config.generation config.status.observed_generation);
      }

  IsSettled-messages : IsSettled config d desired → progressing_messages config d desired ≡ []
  unfolding progressing_messages
  IsSettled-messages s = rw (IsVersioned-nil config d s.version) (
      ground (
        arith,
        int_eq_iff d.generation d.observed_generation,
        s.some_available,
        int_eq_iff d.available_replicas (pos 0),
        int_eq_iff d.updated_replicas desired,
        int_eq_iff config.generation config.status.observed_generation,
      ))

  progressing_condition-false :
      (ms : List String) (prefix : String)
      → ((progressing_condition ms prefix).status ≡ condition_false) ↔ (ms ≡ [])
  unfolding progressing_condition
  progressing_condition-false [] prefix = (λ _. refl, λ _. refl)
  progressing_condition-false (m ∷ ms) prefix = (λ e. absurd (cc), λ e. absurd (cc))

available-ne-progressing : (prefix : String) → prefix <> "Available" ≢ prefix <> "Progressing"
available-ne-progressing prefix e =
    ground (
      arith,
      eq_iff "Available" "Progressing",
      append_cancel_left prefix "Available" "Progressing" e,
    )

pub kind-available :
    (d : Deployment) (n p : String) → (available_condition d n p).kind ≡ p <> "Available"
unfolding available_condition
kind-available d n p = ground arith

pub kind-progressing :
    (ms : List String) (p : String) → (progressing_condition ms p).kind ≡ p <> "Progressing"
unfolding progressing_condition
kind-progressing [] p = refl
kind-progressing (m ∷ ms) p = refl

available_condition-true :
    (d : Deployment) (n p : String)
    → ((available_condition d n p).status ≡ condition_true) ↔ (available d ≡ true)
unfolding available_condition
available_condition-true d n p = elim (Bool-cases (available d)) [
  | inl on ↦ rw on (λ _. refl, λ _. refl)
  | inr off ↦ rw off (λ e. absurd (cc), λ e. absurd (cc))
]

module _ {W : Type 0} (api : Api W) (lawful : IsLawful api) (config : OperatorConfig)
    (d : Deployment) (readable_name prefix : String) where
  abbrev conditions_of : OperatorConfig → List OperatorCondition
  conditions_of c = c.status.conditions

  find_set_self :
      (cs : List OperatorCondition) (c : OperatorCondition) (kind : String)
      → c.kind ≡ kind
      → find_condition kind (api.set_operator_condition cs c) ≡ some c
  find_set_self cs c kind e = ground (arith, lawful.find_set cs c kind, eq_iff c.kind kind)

  find_set_ne :
      (cs : List OperatorCondition) (c : OperatorCondition) (kind : String)
      → c.kind ≢ kind
      → find_condition kind (api.set_operator_condition cs c) ≡ find_condition kind cs
  find_set_ne cs c kind e = ground (arith, lawful.find_set cs c kind, eq_iff c.kind kind)

  messages-set :
      (c : OperatorCondition) (desired : ℤ)
      → progressing_messages (set_condition api c config) d desired
        ≡ progressing_messages config d desired
  unfolding progressing_messages version_messages
  messages-set c desired = refl

  abbrev after_available : OperatorConfig
  after_available = set_condition api (available_condition d readable_name prefix) config

  abbrev after_both : ℤ → OperatorConfig
  after_both desired =
      set_condition api
        (progressing_condition (progressing_messages after_available d desired) prefix)
        after_available

  set_conditions-some :
      {desired : ℤ}
      → d.spec_replicas ≡ some desired
      → set_controller_manager_status_conditions api config d readable_name prefix
        ≡ some (after_both desired)
  unfolding set_controller_manager_status_conditions
  set_conditions-some h = rw h refl

  -- With a desired number of replicas, both conditions of the operand are set: it is available
  -- exactly if it has an available replica, and not progressing exactly if it has rolled out; every
  -- other condition is as it was.
  pub set_conditions-find :
      {desired : ℤ} (kind : String)
      → d.spec_replicas ≡ some desired
      → kind ≢ prefix <> "Available"
      → kind ≢ prefix <> "Progressing"
      → (config' : OperatorConfig) × (a p : OperatorCondition)
        × (set_controller_manager_status_conditions api config d readable_name prefix
            ≡ some config')
        × (find_condition (prefix <> "Available") config'.status.conditions ≡ some a)
        × ((a.status ≡ condition_true) ↔ (positive d.available_replicas ≡ true))
        × (find_condition (prefix <> "Progressing") config'.status.conditions ≡ some p)
        × ((p.status ≡ condition_false) ↔ IsSettled config d desired)
        × (find_condition kind config'.status.conditions
            ≡ find_condition kind config.status.conditions)
  set_conditions-find {desired} kind h other_a other_p =
      let a = available_condition d readable_name prefix in
      let ms = progressing_messages after_available d desired in
      let p = progressing_condition ms prefix in
      let same = messages-set a desired in
      let cs = after_available.status.conditions in
      let own_a = kind-available d readable_name prefix in
      let own_p = kind-progressing ms prefix in
      (
        after_both desired,
        a,
        p,
        set_conditions-some h,
        find_set_ne cs p (prefix <> "Available")
              (λ e. available-ne-progressing prefix (sym e ∙ own_p))
            ∙ find_set_self config.status.conditions a (prefix <> "Available") own_a,
        available_condition-true d readable_name prefix,
        find_set_self cs p (prefix <> "Progressing") own_p,
        (
          λ e.
              messages-IsSettled config d desired
                (sym same ∙ (progressing_condition-false config d desired ms prefix).0 e),
          λ s.
              (progressing_condition-false config d desired ms prefix).1
                (same ∙ IsSettled-messages config d desired s),
        ),
        find_set_ne cs p kind (λ e. other_p (sym e ∙ own_p))
            ∙ find_set_ne config.status.conditions a kind (λ e. other_a (sym e ∙ own_a)),
      )
