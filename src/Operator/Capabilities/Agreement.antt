-- ===== src/Operator/Capabilities/Agreement.antt =====
-- The list of controllers that the operator makes and the one that is observed agree.
use mathlib.Core.Path.{subst}
use mathlib.Core.List.{Perm}
use cluster_openshift_contro.Common.{
  any-perm, String, List, [], Option, some, Bool, true, false, ◌≡◌, ◌⊎◌, inl, inr, arith, ◌==◌, ◌∙◌,
  sym, member, map, eq_iff, Bool-cases, ap,
}
use cluster_openshift_contro.Names.{
  capability_build, capability_deployment_config, capability_image_registry,
}
use cluster_openshift_contro.Common.Fault.{ok}
use cluster_openshift_contro.Cluster.{ClusterVersion}
use cluster_openshift_contro.Registry.{image_registry_is_enabled}
use cluster_openshift_contro.Registry.State.{image_registry_is_enabled-false}
use cluster_openshift_contro.Observe.Unstructured.{Unstructured, IsLawful}
use cluster_openshift_contro.Observe.Listers.{Listers}
use cluster_openshift_contro.Operator.Capabilities.Order.{disable_controllers-perm}
use cluster_openshift_contro.Operator.Capabilities.{
  controller_capabilities, capability_off, disable_controllers,
}
use cluster_openshift_contro.Operator.Capabilities.Content.{member-disable_controllers}
use cluster_openshift_contro.Observe.Controllers.{
  all_controllers, observe_controllers, controllers_path,
}
use cluster_openshift_contro.Observe.Controllers.Outcome.{marked, observe_controllers-success}
use cluster_openshift_contro.Operator.Capabilities.Marks.{
  default_marked, any-is_marked, all-is_marked,
}

ok_inj : {a b : Bool} → ok a ≡ ok b → a ≡ b
ok_inj h = cc

-- The controllers with the marks of the observed list.
abbrev marked_for : ClusterVersion → Bool → List String
marked_for cv registry =
    map
      (marked registry (member capability_build cv.enabled_capabilities)
        (member capability_deployment_config cv.enabled_capabilities))
      all_controllers

-- A name of the operator's list, but for "*", is marked in the observed list.
member-marked :
    (s : String) (cv : ClusterVersion) (registry : Bool)
    → (capability_off cv capability_image_registry ≡ true → registry ≡ false)
    → member s (disable_controllers controller_capabilities cv) ≡ true
    → (s ≡ "*") ⊎ (member s (marked_for cv registry) ≡ true)
unfolding capability_off
member-marked s cv registry hr found =
    let l = marked_for cv registry in
    let content = sym (member-disable_controllers s cv controller_capabilities) ∙ found in
    elim (Bool-cases ("*" == s)) [
      | inl star ↦ inl (sym ((eq_iff "*" s).0 star))
      | inr no_star ↦ elim (Bool-cases ("-openshift.io/default-rolebindings" == s)) [
        | inl default ↦ inr (
            subst (λ x. member x l ≡ true)
              ((eq_iff "-openshift.io/default-rolebindings" s).0 default)
              (default_marked registry (member capability_build cv.enabled_capabilities)
                (member capability_deployment_config cv.enabled_capabilities)))
        | inr other ↦ inr (
            any-is_marked (capability_off cv) l s controller_capabilities
              (all-is_marked (capability_off cv) registry
                (member capability_build cv.enabled_capabilities)
                (member capability_deployment_config cv.enabled_capabilities) hr (λ e. ground arith)
                (λ e. ground arith))
              (rw (no_star, other) at content))
      ]
    ]

module _ {Json Config Network : Type 0} (u : Unstructured Json Config) (lawful : IsLawful u)
    (listers : Listers Json Network) (cv : ClusterVersion) (registry : Bool) {existing : Config}
    {found : Option (List String)} where
  -- The two lists of controllers agree: if the existing value, the ClusterVersion and the state of
  -- the registry can be read, each name of the list that the operator makes for this ClusterVersion,
  -- in whatever order the map is visited, is "*" or in the list that is observed.
  pub disable_controllers-observed :
      (entries : List (String × String)) (s : String)
      → Perm entries controller_capabilities
      → u.nested_string_slice existing controllers_path ≡ ok found
      → listers.cluster_version_lister "version" ≡ ok cv
      → image_registry_is_enabled listers.cluster_version_lister listers.cluster_operator_lister
        ≡ ok registry
      → member s (disable_controllers entries cv) ≡ true
      → (config : Config) × (names : List String) × (observe_controllers u listers existing
          ≡ some (config, []))
        × (u.nested_string_slice config controllers_path ≡ ok (some names))
        × ((s ≡ "*") ⊎ (member s names ≡ true))
  unfolding capability_off
  disable_controllers-observed entries s p he hc hr listed =
      let (config, names, done, read, perm, ordered) =
        observe_controllers-success u lawful listers cv registry he hc hr in
      let off : capability_off cv capability_image_registry ≡ true → registry ≡ false = λ e.
        ok_inj (
          sym hr
          ∙ (image_registry_is_enabled-false listers.cluster_version_lister
                listers.cluster_operator_lister).1
              (cv, hc, inl (ground arith))) in
      let same = (disable_controllers-perm cv p).0 in
      (
        config,
        names,
        done,
        read,
        elim (member-marked s cv registry off (sym (ap (member s) same) ∙ listed)) [
          | inl star ↦ inl star
          | inr there ↦ inr (any-perm (λ x. x == s) perm ∙ there)
        ],
      )
