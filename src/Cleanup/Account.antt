-- ===== src/Cleanup/Account.antt =====
-- The cleanup of one service account: `imagePullSecretForServiceAccount`, `imagePullSecretInUse`,
-- `tokenSecretForImagePullSecret` and the body of the loop of `cleanup`.
use package.text.Mathlib.Text.{starts_with}
use cluster_openshift_contro.Common.{
  ℕ, ◌+◌, String, List, [], ◌∷◌, ◌++◌, Option, none, some, Bool, true, false, not, ◌==◌, ◌||◌, ◌<>◌,
  if◌then◌else◌, any, filter_by, is_empty, quote, ltb, lookup, get,
}
use cluster_openshift_contro.Common.Fault.{
  Fault, Reason, Result, ok, err, wrap, is_not_found, is_conflict,
}
use cluster_openshift_contro.Cleanup.Objects.{
  Secret, ObjectReference, LocalObjectReference, ServiceAccount, Pod, Kube,
}

abbrev pub pull_secret_ref_annotation : String
pull_secret_ref_annotation = "openshift.io/internal-registry-pull-secret-ref"

abbrev pub auth_token_annotation : String
auth_token_annotation = "openshift.io/internal-registry-auth-token.service-account"

abbrev pub token_secret_annotation : String
token_secret_annotation = "openshift.io/token-secret.name"

abbrev pub created_by_annotation : String
created_by_annotation = "kubernetes.io/created-by"

-- 10*time.Minute, in nanoseconds
abbrev pub ten_minutes : ℕ
ten_minutes = 600_000_000_000

-- factory.SyntheticRequeueError
abbrev pub synthetic_requeue_error : Fault
synthetic_requeue_error = record { reason = Reason.requeue; text = "synthetic requeue request" }

abbrev pub is_some {ℓ} : {A : Type ℓ} → Option A → Bool
is_some none = false
is_some (some _) = true

-- The first name with the prefix, or "".
unfoldable pub first_with_prefix : String → List String → String
first_with_prefix prefix [] = ""
first_with_prefix prefix (name ∷ names) =
    let rest = first_with_prefix prefix names in if starts_with name prefix then name else rest

abbrev pub local_names : List LocalObjectReference → List String
local_names [] = []
local_names (r ∷ rs) = r.name ∷ local_names rs

abbrev pub object_names : List ObjectReference → List String
object_names [] = []
object_names (r ∷ rs) = r.name ∷ object_names rs

abbrev pub or_else : String → String → String
or_else name other = if is_empty name then other else name

-- One of the annotations with which the controller manager marks a pull secret.
unfoldable pub is_generated : Secret → Bool
is_generated s =
    is_some (lookup auth_token_annotation s.annotations)
    || is_some (lookup token_secret_annotation s.annotations)

module _ {W : Type 0} (k : Kube W) where
  unfoldable pub image_pull_secret_name : ServiceAccount → String
  unfolding first_with_prefix
  image_pull_secret_name sa =
      let prefix = k.get_name sa.name "dockercfg-" 58 in
      or_else (get pull_secret_ref_annotation sa.annotations) (
        or_else (first_with_prefix prefix (local_names sa.image_pull_secrets))
          (first_with_prefix prefix (object_names sa.secrets)))

  abbrev pub confirm : String → Result Secret → Result (String × Option Secret)
  confirm name (err e) = if is_not_found e then ok (name, none) else err e
  confirm name (ok s) = if is_generated s then ok (name, some s) else ok ("", none)

  unfoldable pub image_pull_secret_for_service_account :
      ServiceAccount → W → Result (String × Option Secret)
  unfolding is_generated image_pull_secret_name
  image_pull_secret_for_service_account sa w =
      let name = image_pull_secret_name sa in
      if is_empty name then ok ("", none) else confirm name (k.get_secret sa.namespace name w)

  abbrev pub uses : Secret → Result (List Pod) → Bool
  uses s (err e) = true
  uses s (ok pods) = any (λ pod. any (λ r. s.name == r.name) pod.image_pull_secrets) pods

  unfoldable pub image_pull_secret_in_use : Secret → W → Bool
  image_pull_secret_in_use s w = uses s (k.list_pods s.namespace w)

  -- An error that is not NotFound comes with a nil secret, whose annotations are then read: that
  -- panics, which is `none`.
  abbrev pub confirm_token : Result Secret → Option (Option Secret)
  confirm_token (err e) = if is_not_found e then some none else none
  confirm_token (ok t) =
      if get created_by_annotation t.annotations == "openshift.io/create-dockercfg-secrets"
      then some (some t)
      else some none

  unfoldable pub token_secret_for_image_pull_secret : Secret → W → Option (Option Secret)
  token_secret_for_image_pull_secret s w =
      let name = get token_secret_annotation s.annotations in
      if is_empty name then some none else confirm_token (k.get_secret s.namespace name w)

-- The requests to the API server, each with the state in which its round began.
pub data Request (W : Type 0) : Type 0 where
  delete_token : W → Secret → Secret → Request W
  delete_pull_secret : W → Secret → Request W
  update : W → String → ServiceAccount → ServiceAccount → Request W

pub record State (W : Type 0) : Type 0 where
  pub world : W
  pub requests : List (Request W)

-- How a round ends: the next one follows, the function returns nil or an error, or it panics.
pub data Flow : Type 0 where
  continue return_nil panic : Flow
  fail : Fault → Flow

-- The references of the service account without those to the secret.
unfoldable pub without_refs : String → ServiceAccount → ServiceAccount
without_refs name sa = record sa {
  secrets = filter_by (λ r. not (r.name == name)) sa.secrets;
  image_pull_secrets = filter_by (λ r. not (r.name == name)) sa.image_pull_secrets;
}

abbrev pub retrieve_context : ServiceAccount → String
retrieve_context sa =
    "unable to retrieve the managed image pull secret for the service account "
    <> quote sa.name
    <> " (ns="
    <> quote sa.namespace
    <> "): "

abbrev pub secret_context : String → Secret → String
secret_context what secret = what <> quote secret.name <> " (ns=" <> quote secret.namespace <> "): "

abbrev pub token_context : Option Secret → String
token_context none = ""
token_context (some token) =
    secret_context "unable to delete the service account token secret " token

abbrev pub refs_context : String → ServiceAccount → String
refs_context name sa =
    "unable to clean up references to the image pull secret "
    <> quote name
    <> " (ns="
    <> quote sa.namespace
    <> ") from the service accout "
    <> quote sa.name
    <> ": "

module _ {W : Type 0} (k : Kube W) where
  -- `err != nil && !errors.IsNotFound(err)`
  abbrev pub real_error : Option Fault → Option Fault
  real_error none = none
  real_error (some e) = if is_not_found e then none else some e

  abbrev pub delete_if : Option Secret → (Secret → Request W) → State W → Option Fault × State W
  delete_if none request s = (none, s)
  delete_if (some secret) request s =
      let (e, w) = k.delete_secret secret.namespace secret.name s.world in
      (real_error e, record { world = w; requests = s.requests ++ request secret ∷ [] })

  abbrev pub after_update : String → ServiceAccount → Option Fault → State W → Flow × State W
  after_update name sa none s = if k.is_done s.world then (return_nil, s) else (continue, s)
  after_update name sa (some e) s =
      if is_conflict e
      then (fail synthetic_requeue_error, s)
      else (fail (wrap (refs_context name sa) e), s)

  -- The references are dropped in the cached object first, and stay dropped if the update fails.
  abbrev pub update_refs : W → String → ServiceAccount → State W → Flow × State W
  update_refs start name sa s =
      let (e, w) =
        k.update_service_account (without_refs name sa)
          (k.assign_service_account (without_refs name sa) s.world) in
      after_update name sa e (record {
        world = w;
        requests = s.requests ++ update start name sa (without_refs name sa) ∷ [];
      })

  abbrev pub or_fail : String → Option Fault × State W → (State W → Flow × State W) → Flow × State W
  or_fail context (some e, s) f = (fail (wrap context e), s)
  or_fail context (none, s) f = f s

  -- a nil image pull secret was not found: only the references are left
  unfoldable pub remove_secrets :
      W → String → ServiceAccount → Secret → Option Secret → State W → Flow × State W
  unfolding without_refs
  remove_secrets start name sa secret token s =
      or_fail (token_context token) (delete_if token (delete_token start secret) s) λ s₁.
        or_fail (secret_context "unable to delete image pull secret " secret)
          (delete_if (some secret) (delete_pull_secret start) s₁) (update_refs start name sa)

  -- `tokenSecretForImagePullSecret` returns no error: it finds the secret, finds none, or panics.
  abbrev pub with_token :
      W → String → ServiceAccount → Secret → Option (Option Secret) → State W → Flow × State W
  with_token start name sa secret none s = (panic, s)
  with_token start name sa secret (some token) s = remove_secrets start name sa secret token s

  -- created within the last 10 minutes: `After(now - 10min)`
  unfoldable pub is_recent : Secret → W → Bool
  is_recent secret w = ltb (k.now w) (secret.creation_timestamp + ten_minutes)

  unfoldable pub cleanup_secret : String → ServiceAccount → Secret → State W → Flow × State W
  unfolding is_recent
  cleanup_secret name sa secret s =
      if is_recent secret s.world
      then (continue, s)
      else if image_pull_secret_in_use k secret s.world
      then (continue, s)
      else with_token s.world name sa secret (token_secret_for_image_pull_secret k secret s.world) s

  abbrev pub cleanup_found :
      ServiceAccount → Result (String × Option Secret) → State W → Flow × State W
  cleanup_found sa (err e) s = (fail (wrap (retrieve_context sa) e), s)
  cleanup_found sa (ok (name, none)) s =
      if is_empty name then (continue, s) else update_refs s.world name sa s
  cleanup_found sa (ok (name, some secret)) s =
      if is_empty name then (continue, s) else cleanup_secret name sa secret s

  unfoldable pub cleanup_account : ServiceAccount → State W → Flow × State W
  unfolding without_refs
  cleanup_account sa s = cleanup_found sa (image_pull_secret_for_service_account k sa s.world) s
