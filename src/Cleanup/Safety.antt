-- ===== src/Cleanup/Safety.antt =====
-- The cleanup of a service account sends safe requests alone.
use cluster_openshift_contro.Common.{
  String, [], ◌∷◌, ◌++◌, Option, none, some, ◌≡◌, ◌≢◌, refl, inl, inr, arith, is_empty, All,
  All-append, Bool-cases,
}
use cluster_openshift_contro.Common.Fault.{Fault, Result, ok, err}
use cluster_openshift_contro.Cleanup.Objects.{Secret, ServiceAccount, Kube}
use cluster_openshift_contro.Cleanup.Account
use mathlib.Core.Path.{subst}
use cluster_openshift_contro.Cleanup.Account.{
  Request, delete_token, delete_pull_secret, update, State, Flow, auth_token_annotation,
  token_secret_annotation, created_by_annotation, ten_minutes, is_generated, image_pull_secret_name,
  image_pull_secret_for_service_account, image_pull_secret_in_use,
  token_secret_for_image_pull_secret, without_refs, remove_secrets, is_recent, cleanup_secret,
  cleanup_account, update_refs, confirm, confirm_token, uses, or_fail, delete_if,
}
use cluster_openshift_contro.Cleanup.Requests.{
  IsRemovable, IsSafe, pull_secret_missing, removable, token_found, is_empty-false,
}

module _ {W : Type 0} (k : Kube W) where
  abbrev pub AllSafe : State W → Type 0
  AllSafe s = All (IsSafe k) s.requests

  add-IsSafe :
      (s : State W) (r : Request W) → AllSafe s → IsSafe k r → All (IsSafe k) (s.requests ++ r ∷ [])
  add-IsSafe s r h p = All-append (IsSafe k) s.requests (r ∷ []) h (p, tt)

  delete_if-AllSafe :
      (o : Option Secret) (request : Secret → Request W) (s : State W)
      → AllSafe s
      → ((t : Secret) → o ≡ some t → IsSafe k (request t))
      → AllSafe (delete_if k o request s).1
  delete_if-AllSafe none request s h p = h
  delete_if-AllSafe (some t) request s h p = add-IsSafe s (request t) h (p t refl)

  or_fail-AllSafe :
      (context : String) (r : Option Fault × State W) (f : State W → Flow × State W)
      → AllSafe r.1
      → ((s : State W) → AllSafe s → AllSafe (f s).1)
      → AllSafe (or_fail k context r f).1
  or_fail-AllSafe context (some e, s) f h p = h
  or_fail-AllSafe context (none, s) f h p = p s h

  after_update-requests :
      (name : String) (sa : ServiceAccount) (e : Option Fault) (s : State W)
      → (Account.after_update k name sa e s).1.requests ≡ s.requests
  after_update-requests name sa none s = ground arith
  after_update-requests name sa (some e) s = ground arith

  update_refs-AllSafe :
      (w : W) (name : String) (sa : ServiceAccount) (s : State W)
      → AllSafe s
      → IsSafe k (update w name sa (without_refs name sa))
      → AllSafe (update_refs k w name sa s).1
  update_refs-AllSafe w name sa s h p =
      let (e, w') =
        k.update_service_account (without_refs name sa)
          (k.assign_service_account (without_refs name sa) s.world) in
      rw (after_update-requests name sa e)
        (add-IsSafe s (update w name sa (without_refs name sa)) h p)

  remove_secrets-AllSafe :
      (w : W) (name : String) (sa : ServiceAccount) (secret : Secret) (token : Option Secret)
      (s : State W)
      → AllSafe s
      → name ≢ ""
      → IsRemovable k w sa name secret
      → token_secret_for_image_pull_secret k secret w ≡ some token
      → AllSafe (remove_secrets k w name sa secret token s).1
  unfolding remove_secrets
  remove_secrets-AllSafe w name sa secret token s h named r found =
      or_fail-AllSafe _ (delete_if k token (delete_token w secret) s) _
        (delete_if-AllSafe token (delete_token w secret) s h (λ t e.
          let (at, by) = token_found k w sa name secret (rw e at found) in ((sa, name, r), at, by)))
        λ s₁ h₁.
          or_fail-AllSafe _ (delete_if k (some secret) (delete_pull_secret w) s₁) _
            (delete_if-AllSafe (some secret) (delete_pull_secret w) s₁ h₁ (λ t e.
              (sa, name, let same : secret ≡ t = cc in subst (IsRemovable k w sa name) same r)))
            λ s₂ h₂.
              update_refs-AllSafe w name sa s₂ h₂ (named, r.referenced, refl, inr (secret, r))

  -- Looking up the parts of `cleanup_secret`, with what each test says.
  with_token-AllSafe :
      (w : W) (name : String) (sa : ServiceAccount) (secret : Secret)
      (token : Option (Option Secret)) (s : State W)
      → AllSafe s
      → name ≢ ""
      → IsRemovable k w sa name secret
      → token_secret_for_image_pull_secret k secret w ≡ token
      → AllSafe (Account.with_token k w name sa secret token s).1
  with_token-AllSafe w name sa secret none s h named r e = h
  with_token-AllSafe w name sa secret (some token) s h named r e =
      remove_secrets-AllSafe w name sa secret token s h named r e

  cleanup_secret-AllSafe :
      (name : String) (sa : ServiceAccount) (secret : Secret) (s : State W)
      → AllSafe s
      → name ≢ ""
      → image_pull_secret_for_service_account k sa s.world ≡ ok (name, some secret)
      → AllSafe (cleanup_secret k name sa secret s).1
  unfolding cleanup_secret
  cleanup_secret-AllSafe name sa secret s h named found =
      elim (Bool-cases (is_recent k secret s.world)) [
        | inl recent ↦ rw recent h
        | inr old ↦ elim (Bool-cases (image_pull_secret_in_use k secret s.world)) [
          | inl used ↦ rw (old, used) h
          | inr unused ↦
              rw (old, unused)
                (with_token-AllSafe s.world name sa secret
                  (token_secret_for_image_pull_secret k secret s.world) s h named
                  (removable k s.world sa name secret found old unused) refl)
        ]
      ]

  cleanup_found-AllSafe :
      (sa : ServiceAccount) (r : Result (String × Option Secret)) (s : State W)
      → AllSafe s
      → image_pull_secret_for_service_account k sa s.world ≡ r
      → AllSafe (Account.cleanup_found k sa r s).1
  cleanup_found-AllSafe sa (err e) s h found = h
  cleanup_found-AllSafe sa (ok (name, none)) s h found = elim (Bool-cases (is_empty name)) [
    | inl e ↦ rw e h
    | inr e ↦
        let (own, missing) = pull_secret_missing k sa s.world found e in
        rw e
          (update_refs-AllSafe s.world name sa s h (is_empty-false name e, own, refl, inl missing))
  ]
  cleanup_found-AllSafe sa (ok (name, some secret)) s h found = elim (Bool-cases (is_empty name)) [
    | inl e ↦ rw e h
    | inr e ↦ rw e (cleanup_secret-AllSafe name sa secret s h (is_empty-false name e) found)
  ]

  pub cleanup_account-AllSafe :
      (sa : ServiceAccount) (s : State W) → AllSafe s → AllSafe (cleanup_account k sa s).1
  unfolding cleanup_account
  cleanup_account-AllSafe sa s h =
      cleanup_found-AllSafe sa (image_pull_secret_for_service_account k sa s.world) s h refl
