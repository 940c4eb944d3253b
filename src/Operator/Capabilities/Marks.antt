-- ===== src/Operator/Capabilities/Marks.antt =====
-- The marks of the observed list for the controllers of a capability that is off.
use mathlib.Core.Path.{subst}
use cluster_openshift_contro.Common.{
  String, List, [], ◌∷◌, Bool, true, false, ◌≡◌, inl, inr, refl, ◌<>◌, ◌==◌, ◌&&◌, any, all, member,
  map, if◌then◌else◌, eq_iff, Bool-cases, and_inv, and_true, ◌++◌,
}
use cluster_openshift_contro.Names.{
  service_account_pull_secrets_controller, image_puller_role_bindings_controller, build_controller,
  build_config_change_controller, builder_service_account_controller,
  builder_role_bindings_controller, deployment_config_controller,
  deployer_service_account_controller, deployer_controller, deployer_role_bindings_controller,
  capability_build, capability_deployment_config, capability_image_registry,
}
use cluster_openshift_contro.Operator.Capabilities.{controller_capabilities}
use cluster_openshift_contro.Observe.Controllers.{all_controllers}
use cluster_openshift_contro.Observe.Controllers.Outcome.{marked}

-- All of these are marked as disabled in the list.
abbrev all_marked : List String → List String → Bool
all_marked names l = all (λ c. member ("-" <> c) l) names

abbrev registry_controllers : List String
registry_controllers =
    service_account_pull_secrets_controller ∷ image_puller_role_bindings_controller ∷ []

abbrev build_controllers : List String
build_controllers =
    build_controller ∷ build_config_change_controller ∷ builder_service_account_controller
    ∷ builder_role_bindings_controller ∷ []

abbrev deployment_controllers : List String
deployment_controllers =
    deployment_config_controller ∷ deployer_service_account_controller ∷ deployer_controller
    ∷ deployer_role_bindings_controller ∷ []

pub default_marked :
    (r b d : Bool)
    → member "-openshift.io/default-rolebindings" (map (marked r b d) all_controllers) ≡ true
default_marked true true true = refl
default_marked true true false = refl
default_marked true false true = refl
default_marked true false false = refl
default_marked false true true = refl
default_marked false true false = refl
default_marked false false true = refl
default_marked false false false = refl

registry_marked :
    (b d : Bool) → all_marked registry_controllers (map (marked false b d) all_controllers) ≡ true
registry_marked true true = refl
registry_marked true false = refl
registry_marked false true = refl
registry_marked false false = refl

build_marked :
    (r d : Bool) → all_marked build_controllers (map (marked r false d) all_controllers) ≡ true
build_marked true true = refl
build_marked true false = refl
build_marked false true = refl
build_marked false false = refl

deployment_marked :
    (r b : Bool) → all_marked deployment_controllers (map (marked r b false) all_controllers) ≡ true
deployment_marked true true = refl
deployment_marked true false = refl
deployment_marked false true = refl
deployment_marked false false = refl

-- Each controller whose capability is off is marked.
abbrev is_marked : (String → Bool) → List String → String × String → Bool
is_marked off l entry = if off entry.1 then member ("-" <> entry.0) l else true

pub any-is_marked :
    (off : String → Bool) (l : List String) (s : String) (entries : List (String × String))
    → all (is_marked off l) entries ≡ true
    → any (λ entry. "-" <> entry.0 == s && off entry.1) entries ≡ true
    → member s l ≡ true
any-is_marked off l s [] h found = absurd (cc)
any-is_marked off l s ((c, cap) ∷ entries) h found =
    let (first, rest) = and_inv (is_marked off l (c, cap)) (all (is_marked off l) entries) h in
    elim (Bool-cases ("-" <> c == s)) [
      | inr other ↦ any-is_marked off l s entries rest (rw other at found)
      | inl same ↦ elim (Bool-cases (off cap)) [
        | inr on ↦ any-is_marked off l s entries rest (rw (same, on) at found)
        | inl is_off ↦
            subst (λ x. member x l ≡ true) ((eq_iff ("-" <> c) s).0 same) (rw is_off at first)
      ]
    ]

all-append :
    (off : String → Bool) (l : List String) (xs ys : List (String × String))
    → all (is_marked off l) xs ≡ true
    → all (is_marked off l) ys ≡ true
    → all (is_marked off l) (xs ++ ys) ≡ true
all-append off l [] ys h k = k
all-append off l (x ∷ xs) ys h k =
    let (first, rest) = and_inv (is_marked off l x) (all (is_marked off l) xs) h in
    and_true first (all-append off l xs ys rest k)

-- The controllers of a capability are marked if it is off.
group-is_marked :
    (off : String → Bool) (l : List String) (cap : String) (names : List String)
    → (off cap ≡ true → all_marked names l ≡ true)
    → all (is_marked off l) (map (λ c. (c, cap)) names) ≡ true
group-is_marked off l cap [] h = refl
group-is_marked off l cap (c ∷ names) h = elim (Bool-cases (off cap)) [
  | inl is_off ↦
      let (first, rest) = and_inv (member ("-" <> c) l) (all_marked names l) (h is_off) in
      and_true (rw is_off first) (group-is_marked off l cap names (λ _. rest))
  | inr on ↦ and_true (rw on refl) (group-is_marked off l cap names (λ e. absurd (cc)))
]

abbrev with_capability : String → List String → List (String × String)
with_capability cap names = map (λ c. (c, cap)) names

pub all-is_marked :
    (off : String → Bool) (r b d : Bool)
    → (off capability_image_registry ≡ true → r ≡ false)
    → (off capability_build ≡ true → b ≡ false)
    → (off capability_deployment_config ≡ true → d ≡ false)
    → all (is_marked off (map (marked r b d) all_controllers)) controller_capabilities ≡ true
all-is_marked off r b d hr hb hd =
    let l : List String = map (marked r b d) all_controllers in
    let builds = with_capability capability_build build_controllers in
    let deployments = with_capability capability_deployment_config deployment_controllers in
    let registries = with_capability capability_image_registry registry_controllers in
    all-append off l builds (deployments ++ registries)
      (group-is_marked off l capability_build build_controllers (λ e. rw (hb e) (build_marked r d)))
      (all-append off l deployments registries
        (group-is_marked off l capability_deployment_config deployment_controllers
          (λ e. rw (hd e) (deployment_marked r b)))
        (group-is_marked off l capability_image_registry registry_controllers
          (λ e. rw (hr e) (registry_marked b d))))
