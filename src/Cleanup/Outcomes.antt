-- ===== src/Cleanup/Outcomes.antt =====
-- What a round of the cleanup loop does with a service account, and how it ends.
use mathlib.Core.List.{Mem, mem-append_left, mem-append_right, mem-cons_self}
use mathlib.Core.Path.{subst}
use cluster_openshift_contro.Common.{
  ℕ, String, List, [], ◌∷◌, ◌++◌, Option, none, some, true, ◌≡◌, refl, inl, inr, is_empty,
  Bool-cases,
}
use cluster_openshift_contro.Common.Fault.{Fault, Result, ok, err, is_conflict}
use cluster_openshift_contro.Cleanup.Objects.{Secret, ServiceAccount, Kube}
use cluster_openshift_contro.Cleanup.Account.{
  Request, delete_token, delete_pull_secret, update, State, Flow, delete_if, after_update,
  update_refs, or_fail, without_refs, remove_secrets, with_token, cleanup_secret, cleanup_found,
  cleanup_account, is_recent, image_pull_secret_in_use, image_pull_secret_for_service_account,
  token_secret_for_image_pull_secret,
}
use cluster_openshift_contro.Cleanup.Extends.{Extends, Extends-Mem}

module _ {W : Type 0} (k : Kube W) where
  -- Why a service account needs nothing, in the state in which its round began, or what was sent.
  pub data IsHandled (w : W) (sa : ServiceAccount) (sent : List (Request W)) : Type 0 where
    unmanaged :
        (name : String) (o : Option Secret)
        → image_pull_secret_for_service_account k sa w ≡ ok (name, o)
        → is_empty name ≡ true
        → IsHandled w sa sent
    recent :
        (name : String) (secret : Secret)
        → image_pull_secret_for_service_account k sa w ≡ ok (name, some secret)
        → is_recent k secret w ≡ true
        → IsHandled w sa sent
    used :
        (name : String) (secret : Secret)
        → image_pull_secret_for_service_account k sa w ≡ ok (name, some secret)
        → image_pull_secret_in_use k secret w ≡ true
        → IsHandled w sa sent
    gone :
        (name : String)
        → image_pull_secret_for_service_account k sa w ≡ ok (name, none)
        → Mem (update w name sa (without_refs name sa)) sent
        → IsHandled w sa sent
    removed :
        (name : String) (secret : Secret)
        → image_pull_secret_for_service_account k sa w ≡ ok (name, some secret)
        → Mem (delete_pull_secret w secret) sent
        → Mem (update w name sa (without_refs name sa)) sent
        → IsHandled w sa sent

  pub keep-IsHandled :
      {n : ℕ} {w : W} {sa : ServiceAccount} {s t : State W}
      → Extends n s t
      → IsHandled w sa s.requests
      → IsHandled w sa t.requests
  keep-IsHandled h (unmanaged name o found empty) = unmanaged name o found empty
  keep-IsHandled h (recent name secret found young) = recent name secret found young
  keep-IsHandled h (used name secret found busy) = used name secret found busy
  keep-IsHandled h (gone name found m) = gone name found (Extends-Mem h m)
  keep-IsHandled h (removed name secret found m m') =
      removed name secret found (Extends-Mem h m) (Extends-Mem h m')

  -- How a round ends: the next one follows, or the context is done; else with an error or a panic.
  pub data Ended (w : W) (sa : ServiceAccount) (t : State W) : Flow → Type 0 where
    goes : IsHandled w sa t.requests → Ended w sa t Flow.continue
    stops : k.is_done t.world ≡ true → Ended w sa t Flow.return_nil
    fails : (e : Fault) → Ended w sa t (Flow.fail e)
    panics : Ended w sa t Flow.panic

  after_update-Ended :
      (w : W) (name : String) (sa : ServiceAccount) (e : Option Fault) (s : State W)
      → IsHandled w sa s.requests
      → Ended w sa (after_update k name sa e s).1 (after_update k name sa e s).0
  after_update-Ended w name sa none s h = elim (Bool-cases (k.is_done s.world)) [
    | inl over ↦ rw over (stops over)
    | inr going ↦ rw going (goes h)
  ]
  after_update-Ended w name sa (some e) s h = elim (Bool-cases (is_conflict e)) [
    | inl c ↦ rw c (fails _)
    | inr c ↦ rw c (fails _)
  ]

  mem-last : {A : Type 0} (xs : List A) (x : A) → Mem x (xs ++ x ∷ [])
  mem-last xs x = mem-append_right xs mem-cons_self

  update_refs-Ended :
      (w : W) (name : String) (sa : ServiceAccount) (s : State W)
      → IsHandled w sa (s.requests ++ update w name sa (without_refs name sa) ∷ [])
      → Ended w sa (update_refs k w name sa s).1 (update_refs k w name sa s).0
  update_refs-Ended w name sa s h =
      let (e, w') =
        k.update_service_account (without_refs name sa)
          (k.assign_service_account (without_refs name sa) s.world) in
      after_update-Ended w name sa e
        (record {
          world = w';
          requests = s.requests ++ update w name sa (without_refs name sa) ∷ [];
        })
        h

  or_fail-Ended :
      (w : W) (sa : ServiceAccount) (context : String) (r : Option Fault × State W)
      (f : State W → Flow × State W)
      → ((s : State W) → r.1.requests ≡ s.requests → Ended w sa (f s).1 (f s).0)
      → Ended w sa (or_fail k context r f).1 (or_fail k context r f).0
  or_fail-Ended w sa context (some e, s) f h = fails _
  or_fail-Ended w sa context (none, s) f h = h s refl

  module _ (w : W) (sa : ServiceAccount) (name : String) (secret : Secret)
      (found : image_pull_secret_for_service_account k sa w ≡ ok (name, some secret)) where
    remove_secrets-Ended :
        (token : Option Secret) (s : State W)
        → Ended w sa
            (remove_secrets k w name sa secret token s).1
            (remove_secrets k w name sa secret token s).0
    unfolding remove_secrets
    remove_secrets-Ended token s =
        or_fail-Ended w sa _ (delete_if k token (delete_token w secret) s) _ λ s₁ _.
          or_fail-Ended w sa _ (delete_if k (some secret) (delete_pull_secret w) s₁)
            (update_refs k w name sa)
            λ s₂ same. update_refs-Ended w name sa s₂ (
              removed name secret found
                (mem-append_left _ (
                  subst (Mem (delete_pull_secret w secret)) same
                    (mem-last s₁.requests (delete_pull_secret w secret))))
                (mem-last s₂.requests (update w name sa (without_refs name sa))))

    with_token-Ended :
        (token : Option (Option Secret)) (s : State W)
        → Ended w sa
            (with_token k w name sa secret token s).1
            (with_token k w name sa secret token s).0
    with_token-Ended none s = panics
    with_token-Ended (some token) s = remove_secrets-Ended token s

  cleanup_secret-Ended :
      (name : String) (sa : ServiceAccount) (secret : Secret) (s : State W)
      → image_pull_secret_for_service_account k sa s.world ≡ ok (name, some secret)
      → Ended s.world sa (cleanup_secret k name sa secret s).1 (cleanup_secret k name sa secret s).0
  unfolding cleanup_secret
  cleanup_secret-Ended name sa secret s found =
      let token = token_secret_for_image_pull_secret k secret s.world in
      elim (Bool-cases (is_recent k secret s.world)) [
        | inl young ↦ rw young (goes (recent name secret found young))
        | inr old ↦ elim (Bool-cases (image_pull_secret_in_use k secret s.world)) [
          | inl busy ↦ rw (old, busy) (goes (used name secret found busy))
          | inr free ↦ rw (old, free) (with_token-Ended s.world sa name secret found token s)
        ]
      ]

  cleanup_found-Ended :
      (sa : ServiceAccount) (r : Result (String × Option Secret)) (s : State W)
      → image_pull_secret_for_service_account k sa s.world ≡ r
      → Ended s.world sa (cleanup_found k sa r s).1 (cleanup_found k sa r s).0
  cleanup_found-Ended sa (err e) s found = fails _
  cleanup_found-Ended sa (ok (name, none)) s found = elim (Bool-cases (is_empty name)) [
    | inl e ↦ rw e (goes (unmanaged name none found e))
    | inr e ↦ rw e (
        update_refs-Ended s.world name sa s
          (gone name found (mem-last s.requests (update s.world name sa (without_refs name sa)))))
  ]
  cleanup_found-Ended sa (ok (name, some secret)) s found = elim (Bool-cases (is_empty name)) [
    | inl e ↦ rw e (goes (unmanaged name (some secret) found e))
    | inr e ↦ rw e (cleanup_secret-Ended name sa secret s found)
  ]

  pub cleanup_account-Ended :
      (sa : ServiceAccount) (s : State W)
      → Ended s.world sa (cleanup_account k sa s).1 (cleanup_account k sa s).0
  unfolding cleanup_account
  cleanup_account-Ended sa s =
      cleanup_found-Ended sa (image_pull_secret_for_service_account k sa s.world) s refl
