-- ===== src/Cleanup/Stages.antt =====
-- The cleanup of a service account whose pull secret is to go: the order of the requests, and where
-- an error stops it.
use cluster_openshift_contro.Common.{
  String, List, [], ◌∷◌, ◌++◌, Option, none, some, true, false, ◌≡◌, ◌≢◌, arith, eq_iff,
}
use cluster_openshift_contro.Common.Fault.{Fault, ok, is_conflict, is_not_found, wrap}
use cluster_openshift_contro.Cleanup.Objects.{Secret, ServiceAccount, Kube}
use cluster_openshift_contro.Cleanup.Account.{
  Request, delete_token, delete_pull_secret, update, State, Flow, secret_context,
  synthetic_requeue_error, without_refs, is_recent, image_pull_secret_in_use,
  image_pull_secret_for_service_account, token_secret_for_image_pull_secret, cleanup_secret,
  cleanup_account, refs_context, remove_secrets,
}

-- The answer to a delete: done, or there is nothing to delete.
pub data IsGone : Option Fault → Type 0 where
  deleted : IsGone none
  not_there : (e : Fault) → is_not_found e ≡ true → IsGone (some e)

module _ {W : Type 0} (k : Kube W) (sa : ServiceAccount) (name : String) (secret : Secret)
    (token : Option Secret) (s : State W) where
  -- The secret is the service account's, is not recent and not in use, and `token` is its token, if it
  -- has one.
  pub record IsDue : Type 0 where
    pub named : name ≢ ""
    pub found : image_pull_secret_for_service_account k sa s.world ≡ ok (name, some secret)
    pub old : is_recent k secret s.world ≡ false
    pub unused : image_pull_secret_in_use k secret s.world ≡ false
    pub token_found : token_secret_for_image_pull_secret k secret s.world ≡ some token

  pub due_account : IsDue → cleanup_account k sa s ≡ remove_secrets k s.world name sa secret token s
  unfolding cleanup_account cleanup_secret
  due_account due =
      rw due.found (ground (arith, eq_iff name "", due.named, due.old, due.unused, due.token_found))

module _ {W : Type 0} (k : Kube W) (sa : ServiceAccount) (name : String) (secret : Secret)
    (start : W) where
  -- The last stage, the update, after which the references are dropped in the cached object too. `sent`
  -- are the requests before it.
  pub data UpdateStage (w : W) (sent : List (Request W)) : Flow → State W → Type 0 where
    conflict :
        (e : Fault) (v : W)
        → k.update_service_account
            (without_refs name sa)
            (k.assign_service_account (without_refs name sa) w)
          ≡ (some e, v)
        → is_conflict e ≡ true
        → UpdateStage w sent (Flow.fail synthetic_requeue_error) (record {
          world = v;
          requests = sent ++ update start name sa (without_refs name sa) ∷ [];
        })
    not_updated :
        (e : Fault) (v : W)
        → k.update_service_account
            (without_refs name sa)
            (k.assign_service_account (without_refs name sa) w)
          ≡ (some e, v)
        → is_conflict e ≡ false
        → UpdateStage w sent (Flow.fail (wrap (refs_context name sa) e)) (record {
          world = v;
          requests = sent ++ update start name sa (without_refs name sa) ∷ [];
        })
    updated :
        (v : W)
        → k.update_service_account
            (without_refs name sa)
            (k.assign_service_account (without_refs name sa) w)
          ≡ (none, v)
        → k.is_done v ≡ false
        → UpdateStage w sent Flow.continue (record {
          world = v;
          requests = sent ++ update start name sa (without_refs name sa) ∷ [];
        })
    over :
        (v : W)
        → k.update_service_account
            (without_refs name sa)
            (k.assign_service_account (without_refs name sa) w)
          ≡ (none, v)
        → k.is_done v ≡ true
        → UpdateStage w sent Flow.return_nil (record {
          world = v;
          requests = sent ++ update start name sa (without_refs name sa) ∷ [];
        })

  -- The stage before it, the delete of the pull secret.
  pub data SecretStage (w : W) (sent : List (Request W)) : Flow → State W → Type 0 where
    secret_left :
        (e : Fault) (v : W)
        → k.delete_secret secret.namespace secret.name w ≡ (some e, v)
        → is_not_found e ≡ false
        → SecretStage w sent
            (Flow.fail (wrap (secret_context "unable to delete image pull secret " secret) e))
            (record { world = v; requests = sent ++ delete_pull_secret start secret ∷ [] })
    secret_gone :
        (o : Option Fault) (v : W) {flow : Flow} {t : State W}
        → k.delete_secret secret.namespace secret.name w ≡ (o, v)
        → IsGone o
        → UpdateStage v (sent ++ delete_pull_secret start secret ∷ []) flow t
        → SecretStage w sent flow t

  -- The first stage, the delete of the token, if there is one.
  pub data TokenStage (w : W) (sent : List (Request W))
      : Option Secret → Flow → State W → Type 0 where
    no_token :
        {flow : Flow} {t : State W} → SecretStage w sent flow t → TokenStage w sent none flow t
    token_left :
        (token : Secret) (e : Fault) (v : W)
        → k.delete_secret token.namespace token.name w ≡ (some e, v)
        → is_not_found e ≡ false
        → TokenStage w sent
            (some token)
            (Flow.fail
              (wrap (secret_context "unable to delete the service account token secret " token) e))
            (record { world = v; requests = sent ++ delete_token start secret token ∷ [] })
    token_gone :
        (token : Secret) (o : Option Fault) (v : W) {flow : Flow} {t : State W}
        → k.delete_secret token.namespace token.name w ≡ (o, v)
        → IsGone o
        → SecretStage v (sent ++ delete_token start secret token ∷ []) flow t
        → TokenStage w sent (some token) flow t
