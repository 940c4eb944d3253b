-- ===== src/Cleanup/Rounds.antt =====
-- A whole sync of the cleanup controller, over all service accounts.
use cluster_openshift_contro.Common.{
  List, [], ◌∷◌, true, false, ◌≡◌, ◌≢◌, refl, All, inl, inr, Bool-cases,
}
use cluster_openshift_contro.Common.Fault.{ok, Result-cases}
use cluster_openshift_contro.Cluster.{Lister, ClusterVersion, ClusterOperator}
use cluster_openshift_contro.Registry.{image_registry_is_enabled}
use cluster_openshift_contro.Cleanup.Objects.{ServiceAccount, Kube}
use cluster_openshift_contro.Cleanup.Account.{State, cleanup_account}
use cluster_openshift_contro.Cleanup.Requests.{IsSafe}
use cluster_openshift_contro.Cleanup.Safety.{AllSafe, cleanup_account-AllSafe}
use cluster_openshift_contro.Cleanup.{goes_on, cleanup_loop, cleanup, sync}

module _ {W : Type 0} (k : Kube W) where
  cleanup_loop-AllSafe :
      (accounts : List ServiceAccount) (s : State W)
      → AllSafe k s
      → AllSafe k (cleanup_loop k accounts s).1
  unfolding cleanup_loop
  cleanup_loop-AllSafe [] s h = h
  cleanup_loop-AllSafe (sa ∷ rest) s h =
      let (flow, s') = cleanup_account k sa s in
      elim (Bool-cases (goes_on flow)) [
        | inl e ↦ rw e (
            cleanup_loop-AllSafe rest (record s' { world = k.next s'.world })
              (cleanup_account-AllSafe k sa s h))
        | inr e ↦ rw e (cleanup_account-AllSafe k sa s h)
      ]

  cleanup-AllSafe : (s : State W) → AllSafe k s → AllSafe k (cleanup k s).1
  unfolding cleanup
  cleanup-AllSafe s h = elim (Result-cases (k.list_service_accounts s.world)) [
    | inl (accounts, e) ↦ rw e (cleanup_loop-AllSafe accounts s h)
    | inr (f, e) ↦ rw e h
  ]

  module _ (versions : Lister ClusterVersion) (operators : Lister ClusterOperator) where
    abbrev pub begin : W → State W
    begin w = record { world = w; requests = [] }

    -- Every request that a sync sends is safe: a pull secret is deleted only if a service account
    -- refers to it, it carries a mark of the controller manager, it is at least ten minutes old and
    -- no pod of its namespace uses it; a token only for such a pull secret, which names it, and
    -- with the mark of its creator; and a service account is updated only to drop the references to
    -- its own pull secret, which is such a secret or is gone.
    pub sync-AllSafe : (w : W) → All (IsSafe k) (sync k versions operators (begin w)).1.requests
    unfolding sync
    sync-AllSafe w = elim (Result-cases (image_registry_is_enabled versions operators)) [
      | inl (true, e) ↦ rw e tt
      | inl (false, e) ↦ rw e (cleanup-AllSafe (begin w) tt)
      | inr (f, e) ↦ rw e tt
    ]

    -- Unless the image registry is known to be disabled, a sync sends no request and leaves the
    -- cluster as it is.
    pub sync_idle :
        (w : W)
        → image_registry_is_enabled versions operators ≢ ok false
        → (sync k versions operators (begin w)).1 ≡ begin w
    unfolding sync
    sync_idle w on = elim (Result-cases (image_registry_is_enabled versions operators)) [
      | inl (true, e) ↦ rw e refl
      | inl (false, e) ↦ absurd (on e)
      | inr (f, e) ↦ rw e refl
    ]
