-- ===== src/Cleanup/Requests.antt =====
-- Which requests a cleanup may send.
use cluster_openshift_contro.Common.{
  ◌+◌, ◌≤◌, String, List, none, some, true, false, ◌≡◌, ◌≢◌, refl, ◌⊎◌, inl, inr, arith, ◌==◌,
  eq_iff, is_empty, lookup, get, any, Bool-cases,
}
use cluster_openshift_contro.Common.Fault.{Fault, Result, ok, err, is_not_found}
use cluster_openshift_contro.Cleanup.Objects.{Secret, ServiceAccount, Kube, Pod}
use cluster_openshift_contro.Cleanup.Account
use cluster_openshift_contro.Cleanup.Account.{
  Request, delete_token, delete_pull_secret, update, State, Flow, auth_token_annotation,
  token_secret_annotation, created_by_annotation, ten_minutes, is_generated, image_pull_secret_name,
  image_pull_secret_for_service_account, image_pull_secret_in_use,
  token_secret_for_image_pull_secret, without_refs, remove_secrets, is_recent, cleanup_secret,
  cleanup_account, update_refs, confirm, confirm_token, uses, or_fail, delete_if,
}

-- The secret carries one of the two annotations of the controller manager.
abbrev pub IsMarked : Secret → Type 0
IsMarked s =
    (lookup auth_token_annotation s.annotations ≢ none)
    ⊎ (lookup token_secret_annotation s.annotations ≢ none)

pub is_empty-false : (s : String) → is_empty s ≡ false → s ≢ ""
is_empty-false s h e = ground (arith, eq_iff s "")

module _ {W : Type 0} (k : Kube W) where
  -- The secret to which the service account refers is marked, is at least ten minutes old, and no
  -- pod of its namespace uses it.
  pub record IsRemovable (w : W) (sa : ServiceAccount) (name : String) (s : Secret) : Type 0 where
    pub referenced : name ≡ image_pull_secret_name k sa
    pub found : k.get_secret sa.namespace name w ≡ ok s
    pub marked : IsMarked s
    pub old : s.creation_timestamp + ten_minutes ≤ k.now w
    pub pods : List Pod
    pub listed : k.list_pods s.namespace w ≡ ok pods
    pub unused : any (λ pod. any (λ r. s.name == r.name) pod.image_pull_secrets) pods ≡ false

  abbrev pub HasRemovable : W → Secret → Type 0
  HasRemovable w s = (sa : ServiceAccount) × (name : String) × IsRemovable w sa name s

  -- What holds of a request, in the state in which its round began.
  abbrev pub IsSafe : Request W → Type 0
  IsSafe (delete_token w s t) =
      HasRemovable w s
      × (k.get_secret s.namespace (get token_secret_annotation s.annotations) w ≡ ok t)
      × (get created_by_annotation t.annotations ≡ "openshift.io/create-dockercfg-secrets")
  IsSafe (delete_pull_secret w s) = HasRemovable w s
  IsSafe (update w name sa sa') =
      (name ≢ "")
      × (name ≡ image_pull_secret_name k sa)
      × (sa' ≡ without_refs name sa)
      × (((e : Fault) × (k.get_secret sa.namespace name w ≡ err e) × (is_not_found e ≡ true))
          ⊎ ((s : Secret) × IsRemovable w sa name s))

  is_generated-IsMarked : (s : Secret) → is_generated s ≡ true → IsMarked s
  unfolding is_generated
  is_generated-IsMarked s h =
      elim (Bool-cases (Account.is_some (lookup auth_token_annotation s.annotations))) [
        | inl a ↦ inl (λ e. ground arith)
        | inr b ↦ inr (λ e. ground arith)
      ]

  confirm_found :
      (name : String) (r : Result Secret) {n : String} {s : Secret}
      → confirm k name r ≡ ok (n, some s)
      → (n ≡ name) × (r ≡ ok s) × (is_generated s ≡ true)
  confirm_found name (err e) h = absurd (ground arith)
  confirm_found name (ok t) h = ground arith

  confirm_missing :
      (name : String) (r : Result Secret) {n : String}
      → confirm k name r ≡ ok (n, none)
      → is_empty n ≡ false
      → (n ≡ name) × ((e : Fault) × (r ≡ err e) × (is_not_found e ≡ true))
  confirm_missing name (err e) h g = (ground arith, (e, refl, ground arith))
  confirm_missing name (ok t) {n} h g = absurd (ground (arith, eq_iff n ""))

  confirm_token_found :
      (r : Result Secret) {t : Secret}
      → confirm_token k r ≡ some (some t)
      → (r ≡ ok t)
        × (get created_by_annotation t.annotations ≡ "openshift.io/create-dockercfg-secrets")
  confirm_token_found (err e) h = absurd (ground arith)
  confirm_token_found (ok u) h = ground (
    arith,
    eq_iff (get created_by_annotation u.annotations) "openshift.io/create-dockercfg-secrets",
  )

  -- What a successful look-up of the image pull secret says.
  pub pull_secret_found :
      (sa : ServiceAccount) (w : W) {name : String} {s : Secret}
      → image_pull_secret_for_service_account k sa w ≡ ok (name, some s)
      → (name ≡ image_pull_secret_name k sa)
        × (k.get_secret sa.namespace name w ≡ ok s)
        × (is_generated s ≡ true)
  unfolding image_pull_secret_for_service_account
  pull_secret_found sa w h = ground (
    arith,
    confirm_found (image_pull_secret_name k sa)
        (k.get_secret sa.namespace (image_pull_secret_name k sa) w),
  )

  pub pull_secret_missing :
      (sa : ServiceAccount) (w : W) {name : String}
      → image_pull_secret_for_service_account k sa w ≡ ok (name, none)
      → is_empty name ≡ false
      → (name ≡ image_pull_secret_name k sa)
        × ((e : Fault) × (k.get_secret sa.namespace name w ≡ err e) × (is_not_found e ≡ true))
  unfolding image_pull_secret_for_service_account
  pull_secret_missing sa w {name} h g =
      let own = image_pull_secret_name k sa in
      elim (Bool-cases (is_empty own)) [
        | inl e ↦ absurd (ground (arith, eq_iff name ""))
        | inr e ↦
            let (same, (f, gone, nf)) =
              confirm_missing own (k.get_secret sa.namespace own w) {n = name} (rw e at h) g in
            (same, (f, rw same gone, nf))
      ]

  uses-false :
      (s : Secret) (r : Result (List Pod))
      → uses k s r ≡ false
      → (pods : List Pod) × (r ≡ ok pods)
        × (any (λ pod. any (λ r. s.name == r.name) pod.image_pull_secrets) pods ≡ false)
  uses-false s (err e) h = absurd (ground arith)
  uses-false s (ok pods) h = (pods, refl, h)

  module _ (w : W) (sa : ServiceAccount) (name : String) where
    pub removable :
        (secret : Secret)
        → image_pull_secret_for_service_account k sa w ≡ ok (name, some secret)
        → is_recent k secret w ≡ false
        → image_pull_secret_in_use k secret w ≡ false
        → IsRemovable w sa name secret
    unfolding is_recent image_pull_secret_in_use
    removable secret found old unused =
        let (own, at, generated) = pull_secret_found sa w found in
        let (pods, listed, none_uses) = uses-false secret (k.list_pods secret.namespace w) unused in
        record {
          referenced = own;
          found = at;
          marked = is_generated-IsMarked secret generated;
          old = ground arith;
          pods = pods;
          listed = listed;
          unused = none_uses;
        }

    pub token_found :
        (secret : Secret) {t : Secret}
        → token_secret_for_image_pull_secret k secret w ≡ some (some t)
        → (k.get_secret secret.namespace (get token_secret_annotation secret.annotations) w ≡ ok t)
          × (get created_by_annotation t.annotations ≡ "openshift.io/create-dockercfg-secrets")
    unfolding token_secret_for_image_pull_secret
    token_found secret h =
        let name = get token_secret_annotation secret.annotations in
        elim (Bool-cases (is_empty name)) [
          | inl e ↦ absurd (ground arith)
          | inr e ↦ confirm_token_found (k.get_secret secret.namespace name w) (rw e at h)
        ]
