-- ===== src/Operator/Starter/Run/SyncingChecks.antt =====
-- The user CA controller with a resource syncer that keeps its rules, at a concrete input.
use mathlib.Core.Path.{subst}
use cluster_openshift_contro.Common.{
  String, List, [], ◌∷◌, Option, none, some, Bool, true, false, ◌≡◌, ◌≢◌, ◌⊎◌, inl, inr, refl,
  member, sym, ◌==◌, ◌&&◌, ◌||◌, if◌then◌else◌, eq_iff, Bool-cases, and_inv,
}
use cluster_openshift_contro.Common.Fault.{Fault, ok, err, errorf, is_not_found}
use cluster_openshift_contro.Operator.UserCa.{
  ResourceLocation, location, nowhere, Client, user_ca, sync,
}
use cluster_openshift_contro.Operator.UserCa.Outcome.{IsSource}
use cluster_openshift_contro.Operator.Starter.Run.Resources.{kube_informer_namespaces}
use cluster_openshift_contro.Operator.Starter.Run.Syncing.{IsKnown, IsSyncer, sync-rule}

abbrev same_location : ResourceLocation → ResourceLocation → Bool
same_location a b = a.namespace == b.namespace && a.name == b.name && a.provider == b.provider

same_location_refl : (a : ResourceLocation) → same_location a a ≡ true
same_location_refl a =
    rw
      (
        (eq_iff a.namespace a.namespace).1 refl,
        (eq_iff a.name a.name).1 refl,
        (eq_iff a.provider a.provider).1 refl,
      )
      refl

made_eq : {n n' m m' p p' : String} → n ≡ n' → m ≡ m' → p ≡ p' → location n m p ≡ location n' m' p'
made_eq e f g = rw (e, f, g) refl

same_location_eq : (a b : ResourceLocation) → same_location a b ≡ true → a ≡ b
same_location_eq a b h =
    let (first, provider) = and_inv (a.namespace == b.namespace && a.name == b.name) _ h in
    let (namespace, name) = and_inv (a.namespace == b.namespace) _ first in
    made_eq ((eq_iff a.namespace b.namespace).0 namespace) ((eq_iff a.name b.name).0 name)
      ((eq_iff a.provider b.provider).0 provider)

abbrev Rules : Type 0
Rules = List (ResourceLocation × ResourceLocation)

abbrev rule : ResourceLocation → Rules → Option ResourceLocation
rule destination [] = none
rule destination ((d, s) ∷ rules) =
    if same_location destination d then some s else rule destination rules

abbrev is_known : ResourceLocation → Bool
is_known l = member l.namespace kube_informer_namespaces

abbrev accepts : ResourceLocation → ResourceLocation → Bool
accepts destination source =
    is_known destination && (is_known source || same_location source nowhere)

abbrev client : Client Rules
client = record {
  get_operator_state = λ w. ok "Managed";
  is_managed = λ state. state == "Managed";
  get_proxy = λ w. ok "user-ca-bundle";
  sync_config_map = λ destination source w.
      if accepts destination source
      then (none, (destination, source) ∷ w)
      else (some (errorf "not watching namespace"), w);
}

IsKnown-accepts :
    (destination source : ResourceLocation)
    → IsKnown kube_informer_namespaces destination source
    → accepts destination source ≡ true
IsKnown-accepts destination source (there, inl e) =
    rw there (subst (λ s. (is_known s || same_location s nowhere) ≡ true) (sym e) refl)
IsKnown-accepts destination source (there, inr known) = rw (there, known) refl

rule_kept :
    (destination source other : ResourceLocation) (w : Rules)
    → other ≢ destination
    → rule other (client.sync_config_map destination source w).1 ≡ rule other w
rule_kept destination source other w different = elim (Bool-cases (accepts destination source)) [
  | inr refused ↦ rw refused refl
  | inl accepted ↦ elim (Bool-cases (same_location other destination)) [
    | inl same ↦ absurd (different (same_location_eq other destination same))
    | inr apart ↦ rw (accepted, apart) refl
  ]
]

client-IsSyncer : IsSyncer client kube_informer_namespaces
client-IsSyncer = record {
  rule = rule;
  accepted = λ destination source w known. rw (IsKnown-accepts destination source known) refl;
  rule_accepted = λ destination source w known.
      rw (IsKnown-accepts destination source known, same_location_refl destination) refl;
  rule_other = rule_kept;
}

sync-rule_example :
    (((e : Fault) × (client.get_proxy [] ≡ err e)
        × (is_not_found e ≡ false)
        × (sync client [] ≡ (some e, [])))
      ⊎ ((source : ResourceLocation) × IsSource (client.get_proxy []) source
          × ((sync client []).0 ≡ none)
          × (client-IsSyncer.rule user_ca (sync client []).1 ≡ some source)))
    × ((other : ResourceLocation)
        → other ≢ user_ca
        → client-IsSyncer.rule other (sync client []).1 ≡ client-IsSyncer.rule other [])
sync-rule_example = sync-rule client client-IsSyncer [] ("Managed", refl, refl)
