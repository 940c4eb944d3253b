-- ===== src/Cleanup/Complete.antt =====
-- What a sync of the cleanup controller that ends without an error has seen to.
use mathlib.Core.Path.{subst}
use cluster_openshift_contro.Common.{
  ◌*◌, ◌≤◌, List, [], ◌∷◌, true, false, ◌≡◌, ◌≢◌, ◌⊎◌, refl, inl, inr, arith, length, sym, ap, ◌∙◌,
}
use cluster_openshift_contro.Common.Fault.{ok, Result-cases}
use cluster_openshift_contro.Cluster.{Lister, ClusterVersion, ClusterOperator}
use cluster_openshift_contro.Registry.{image_registry_is_enabled}
use cluster_openshift_contro.Cleanup.Objects.{ServiceAccount, Kube}
use cluster_openshift_contro.Cleanup.Account.{Request, State, Flow, cleanup_account}
use cluster_openshift_contro.Cleanup.{goes_on, cleanup_loop, cleanup, sync}
use cluster_openshift_contro.Cleanup.Rounds.{begin}
use cluster_openshift_contro.Cleanup.Extends.{cleanup_loop-Extends, length-append}
use cluster_openshift_contro.Cleanup.Outcomes.{
  IsHandled, keep-IsHandled, Ended, goes, stops, fails, panics, cleanup_account-Ended,
}

module _ {W : Type 0} (k : Kube W) where
  -- The state in which the round after that of `sa` begins.
  abbrev pub next_round : ServiceAccount → State W → State W
  next_round sa s = let s' = (cleanup_account k sa s).1 in record s' { world = k.next s'.world }

  -- Each service account is handled in the state in which its round begins.
  abbrev pub AllHandled : List (Request W) → List ServiceAccount → State W → Type 0
  AllHandled sent [] s = Unit
  AllHandled sent (sa ∷ rest) s =
      IsHandled k s.world sa sent × AllHandled sent rest (next_round sa s)

  -- The context is done in the state that is reached.
  abbrev pub IsOver : State W → Type 0
  IsOver t = k.is_done t.world ≡ true

  -- A round that does not end the loop with an error has handled its service account.
  round_cases :
      {w : W} {sa : ServiceAccount} {t : State W} (flow : Flow)
      → Ended k w sa t flow
      → (goes_on flow ≡ true) × IsHandled k w sa t.requests
        ⊎ (goes_on flow ≡ false) × (IsOver t ⊎ (flow ≢ Flow.return_nil))
  round_cases Flow.continue (goes h) = inl (refl, h)
  round_cases Flow.return_nil (stops h) = inr (refl, inl h)
  round_cases (Flow.fail e) (fails _) = inr (refl, inr (λ h. cc))
  round_cases Flow.panic panics = inr (refl, inr (λ h. cc))

  -- What a loop or a sync that returned without an error has seen to.
  abbrev pub IsComplete : List ServiceAccount → State W → State W → Type 0
  IsComplete accounts s t = AllHandled t.requests accounts s ⊎ IsOver t

  cleanup_loop-goes_on :
      (sa : ServiceAccount) (rest : List ServiceAccount) (s : State W)
      → goes_on (cleanup_account k sa s).0 ≡ true
      → cleanup_loop k (sa ∷ rest) s ≡ cleanup_loop k rest (next_round sa s)
  unfolding cleanup_loop
  cleanup_loop-goes_on sa rest s going = rw going refl

  cleanup_loop-stops :
      (sa : ServiceAccount) (rest : List ServiceAccount) (s : State W)
      → goes_on (cleanup_account k sa s).0 ≡ false
      → cleanup_loop k (sa ∷ rest) s ≡ cleanup_account k sa s
  unfolding cleanup_loop
  cleanup_loop-stops sa rest s stopped = rw stopped refl

  cleanup_loop-IsComplete :
      (accounts : List ServiceAccount) (s : State W)
      → (cleanup_loop k accounts s).0 ≡ Flow.return_nil
      → IsComplete accounts s (cleanup_loop k accounts s).1
  cleanup_loop-IsComplete [] s h = inl tt
  cleanup_loop-IsComplete (sa ∷ rest) s h =
      let next : State W = next_round sa s in
      let complete : Flow × State W → Type 0 = λ r. IsComplete (sa ∷ rest) s r.1 in
      elim (round_cases (cleanup_account k sa s).0 (cleanup_account-Ended k sa s)) [
        | inr (stopped, inl over) ↦
            subst complete (sym (cleanup_loop-stops sa rest s stopped)) (inr over)
        | inr (stopped, inr other) ↦
            absurd (other (sym (ap (λ r. r.0) (cleanup_loop-stops sa rest s stopped)) ∙ h))
        | inl (going, handled) ↦
            let same = cleanup_loop-goes_on sa rest s going in
            let ended = sym (ap (λ r. r.0) same) ∙ h in
            subst complete (sym same) (elim (cleanup_loop-IsComplete rest next ended) [
              | inr over ↦ inr over
              | inl later ↦ inl (keep-IsHandled k (cleanup_loop-Extends k rest next) handled, later)
            ])
      ]

  module _ (versions : Lister ClusterVersion) (operators : Lister ClusterOperator) (w : W)
      {accounts : List ServiceAccount} where
    -- A sync of a disabled registry that ends without an error has handled every service account that
    -- it has listed, or the context is done in the state that it leaves: in the state in which its round began, the service
    -- account has no generated pull secret, or that is recent or in use; or its references to one that
    -- is gone are updated; or the pull secret is deleted and the references updated.
    pub sync-IsComplete :
        image_registry_is_enabled versions operators ≡ ok false
        → k.list_service_accounts w ≡ ok accounts
        → (sync k versions operators (begin k versions operators w)).0 ≡ Flow.return_nil
        → IsComplete accounts
            (begin k versions operators w)
            (sync k versions operators (begin k versions operators w)).1
    unfolding sync cleanup
    sync-IsComplete disabled listed ended =
        rw (disabled, listed)
          (cleanup_loop-IsComplete accounts (begin k versions operators w)
            (rw (disabled, listed) at ended))

    -- A sync sends at most three requests for each service account that it has listed.
    pub sync-sent :
        k.list_service_accounts w ≡ ok accounts
        → length (sync k versions operators (begin k versions operators w)).1.requests
          ≤ 3 * length accounts
    unfolding sync cleanup
    sync-sent listed = elim (Result-cases (image_registry_is_enabled versions operators)) [
      | inl (true, e) ↦ rw e (omega arith)
      | inl (false, e) ↦
          let all = cleanup_loop-Extends k accounts (begin k versions operators w) in
          let sent = length-append [] all.more in
          let bound = all.bounded in
          rw (e, listed) (subst (λ l. length l ≤ 3 * length accounts) (sym all.extended) bound)
      | inr (f, e) ↦ rw e (omega arith)
    ]
