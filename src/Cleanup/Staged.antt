-- ===== src/Cleanup/Staged.antt =====
-- The cleanup of a service account whose pull secret is to go passes through the stages.
use mathlib.Core.Path.{subst}
use cluster_openshift_contro.Common.{
  String, List, [], ◌∷◌, ◌++◌, Option, none, some, ◌≡◌, inl, inr, refl, Bool-cases, sym,
}
use cluster_openshift_contro.Common.Fault.{Fault, is_conflict, is_not_found}
use cluster_openshift_contro.Cleanup.Objects.{Secret, ServiceAccount, Kube}
use cluster_openshift_contro.Cleanup.Account.{
  Request, delete_token, delete_pull_secret, update, State, Flow, secret_context, without_refs,
  cleanup_account, remove_secrets, real_error, after_update, update_refs, or_fail, delete_if,
}
use cluster_openshift_contro.Cleanup.Stages.{
  IsDue, due_account, deleted, not_there, UpdateStage, conflict, not_updated, updated, over,
  SecretStage, secret_left, secret_gone, TokenStage, no_token, token_left, token_gone,
}

module _ {W : Type 0} (k : Kube W) (sa : ServiceAccount) (name : String) (secret : Secret)
    (start : W) where
  after_update-UpdateStage :
      (w : W) (sent : List (Request W)) (o : Option Fault) (v : W)
      → k.update_service_account
          (without_refs name sa)
          (k.assign_service_account (without_refs name sa) w)
        ≡ (o, v)
      → let t : State W = record {
        world = v;
        requests = sent ++ update start name sa (without_refs name sa) ∷ [];
      } in
        UpdateStage k sa name secret start w sent
          (after_update k name sa o t).0
          (after_update k name sa o t).1
  after_update-UpdateStage w sent none v h = elim (Bool-cases (k.is_done v)) [
    | inl done ↦ rw done (over v h done)
    | inr more ↦ rw more (updated v h more)
  ]
  after_update-UpdateStage w sent (some e) v h = elim (Bool-cases (is_conflict e)) [
    | inl c ↦ rw c (conflict e v h c)
    | inr other ↦ rw other (not_updated e v h other)
  ]

  update_refs-UpdateStage :
      (s : State W)
      → UpdateStage k sa name secret start s.world s.requests
          (update_refs k start name sa s).0
          (update_refs k start name sa s).1
  update_refs-UpdateStage s =
      let r =
        k.update_service_account (without_refs name sa)
          (k.assign_service_account (without_refs name sa) s.world) in
      after_update-UpdateStage s.world s.requests r.0 r.1 refl

  -- The delete of the pull secret, then the update.
  abbrev secret_then : State W → Flow × State W
  secret_then s =
      or_fail k (secret_context "unable to delete image pull secret " secret)
        (delete_if k (some secret) (delete_pull_secret start) s) (update_refs k start name sa)

  answered-SecretStage :
      (w : W) (sent : List (Request W)) (o : Option Fault) (v : W)
      → k.delete_secret secret.namespace secret.name w ≡ (o, v)
      → let r =
          or_fail k
            (secret_context "unable to delete image pull secret " secret)
            (
              real_error k o,
              record { world = v; requests = sent ++ delete_pull_secret start secret ∷ [] },
            )
            (update_refs k start name sa) in
        SecretStage k sa name secret start w sent r.0 r.1
  answered-SecretStage w sent none v h = secret_gone none v h deleted (
      update_refs-UpdateStage
        (record { world = v; requests = sent ++ delete_pull_secret start secret ∷ [] }))
  answered-SecretStage w sent (some e) v h = elim (Bool-cases (is_not_found e)) [
    | inl missing ↦ rw missing (
        secret_gone (some e) v h (not_there e missing) (
          update_refs-UpdateStage
            (record { world = v; requests = sent ++ delete_pull_secret start secret ∷ [] })))
    | inr left ↦ rw left (secret_left e v h left)
  ]

  secret_then-SecretStage :
      (s : State W)
      → SecretStage k sa name secret start s.world s.requests (secret_then s).0 (secret_then s).1
  secret_then-SecretStage s =
      let r = k.delete_secret secret.namespace secret.name s.world in
      answered-SecretStage s.world s.requests r.0 r.1 refl

  answered-TokenStage :
      (w : W) (sent : List (Request W)) (token : Secret) (o : Option Fault) (v : W)
      → k.delete_secret token.namespace token.name w ≡ (o, v)
      → let r =
          or_fail k
            (secret_context "unable to delete the service account token secret " token)
            (
              real_error k o,
              record { world = v; requests = sent ++ delete_token start secret token ∷ [] },
            )
            secret_then in
        TokenStage k sa name secret start w sent (some token) r.0 r.1
  answered-TokenStage w sent token none v h = token_gone token none v h deleted (
      secret_then-SecretStage
        (record { world = v; requests = sent ++ delete_token start secret token ∷ [] }))
  answered-TokenStage w sent token (some e) v h = elim (Bool-cases (is_not_found e)) [
    | inl missing ↦ rw missing (
        token_gone token (some e) v h (not_there e missing) (
          secret_then-SecretStage
            (record { world = v; requests = sent ++ delete_token start secret token ∷ [] })))
    | inr left ↦ rw left (token_left token e v h left)
  ]

  remove_secrets-TokenStage :
      (token : Option Secret) (s : State W)
      → TokenStage k sa name secret start s.world s.requests token
          (remove_secrets k start name sa secret token s).0
          (remove_secrets k start name sa secret token s).1
  unfolding remove_secrets
  remove_secrets-TokenStage none s = no_token (secret_then-SecretStage s)
  remove_secrets-TokenStage (some token) s =
      let r = k.delete_secret token.namespace token.name s.world in
      answered-TokenStage s.world s.requests token r.0 r.1 refl

-- For a service account whose pull secret is due, its token is deleted first, if it has one, then the
-- pull secret, then the references are dropped and the service account is updated. A delete that fails
-- other than by NotFound ends the function with that error and without the requests behind it; NotFound
-- is ignored. A conflict in the update asks for another sync, and another error of the update is
-- returned; otherwise the next service account follows, or the function returns if the context is done.
pub cleanup_account-staged :
    {W : Type 0} (k : Kube W) (sa : ServiceAccount) (name : String) (secret : Secret)
    (token : Option Secret) (s : State W)
    → IsDue k sa name secret token s
    → TokenStage k sa name secret s.world s.world s.requests token
        (cleanup_account k sa s).0
        (cleanup_account k sa s).1
cleanup_account-staged k sa name secret token s due =
    subst (λ r. TokenStage k sa name secret s.world s.world s.requests token r.0 r.1)
      (sym (due_account k sa name secret token s due))
      (remove_secrets-TokenStage k sa name secret s.world token s)
