-- ===== src/Operator/Starter/Run/Syncing.antt =====
-- The user CA controller with the resource syncer that RunOperator makes: the syncer knows the
-- namespaces of the informers.
use cluster_openshift_contro.Common.{
  String, List, Option, none, some, true, false, ◌≡◌, ◌≢◌, ◌⊎◌, inl, inr, refl, member,
}
use cluster_openshift_contro.Common.Fault.{Fault, Result, ok, err, is_not_found}
use cluster_openshift_contro.Operator.UserCa.{ResourceLocation, nowhere, Client, user_ca, sync}
use cluster_openshift_contro.Operator.UserCa.Outcome.{IsSource, named, unnamed, no_proxy, sync_lem}
use cluster_openshift_contro.Operator.Starter.Run.Resources.{kube_informer_namespaces}

-- The source may be nowhere; any other, and the destination, must be in a known namespace.
abbrev pub IsKnown : List String → ResourceLocation → ResourceLocation → Type 0
IsKnown known destination source =
    (member destination.namespace known ≡ true)
    × ((source ≡ nowhere) ⊎ (member source.namespace known ≡ true))

-- resourcesynccontroller.ResourceSyncController with these known namespaces: it keeps for each
-- destination the source that was given last, and refuses a namespace that it does not know.
pub record IsSyncer {W : Type 0} (client : Client W) (known : List String) : Type 0 where
  pub rule : ResourceLocation → W → Option ResourceLocation
  pub accepted :
      (destination source : ResourceLocation) (w : W)
      → IsKnown known destination source
      → (client.sync_config_map destination source w).0 ≡ none
  pub rule_accepted :
      (destination source : ResourceLocation) (w : W)
      → IsKnown known destination source
      → rule destination (client.sync_config_map destination source w).1 ≡ some source
  pub rule_other :
      (destination source other : ResourceLocation) (w : W)
      → other ≢ destination
      → rule other (client.sync_config_map destination source w).1 ≡ rule other w

source-IsKnown :
    {r : Result String} {source : ResourceLocation}
    → IsSource r source
    → IsKnown kube_informer_namespaces user_ca source
source-IsKnown (named name some_name) = (refl, inr refl)
source-IsKnown (unnamed name empty) = (refl, inl refl)
source-IsKnown (no_proxy e missing) = (refl, inl refl)

module _ {W : Type 0} (client : Client W) (syncer : IsSyncer client kube_informer_namespaces)
    (w : W) where
  abbrev pub IsManaged : Type 0
  IsManaged =
      (state : String) × (client.get_operator_state w ≡ ok state) × (client.is_managed state ≡ true)

  -- A managed operator either fails because the proxy cannot be read, and leaves all as it is, or
  -- succeeds, and then the rule for the user CA has the source for the proxy; in no case does a rule
  -- for another destination change. A namespace is never refused.
  pub sync-rule :
      IsManaged
      → (((e : Fault) × (client.get_proxy w ≡ err e)
            × (is_not_found e ≡ false)
            × (sync client w ≡ (some e, w)))
          ⊎ ((source : ResourceLocation) × IsSource (client.get_proxy w) source
              × ((sync client w).0 ≡ none)
              × (syncer.rule user_ca (sync client w).1 ≡ some source)))
        × ((other : ResourceLocation)
            → other ≢ user_ca
            → syncer.rule other (sync client w).1 ≡ syncer.rule other w)
  sync-rule (state, read, managed) = elim (sync_lem client w) [
    | inl (inl (e, failed), idle) ↦ absurd (cc)
    | inl (inr (state', read', unmanaged), idle) ↦ absurd (cc)
    | inr (state', read', managed', inl (e, failed, other, idle)) ↦
        (inl (e, failed, other, idle), λ location different. rw idle refl)
    | inr (state', read', managed', inr (source, is_source, same)) ↦
        let known = source-IsKnown is_source in
        (
          inr (
            source,
            is_source,
            rw same (syncer.accepted user_ca source w known),
            rw same (syncer.rule_accepted user_ca source w known),
          ),
          λ location different. rw same (syncer.rule_other user_ca source location w different),
        )
  ]
