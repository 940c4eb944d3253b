-- ===== src/Cleanup/Refs.antt =====
-- The references that a cleanup drops from a service account.
use cluster_openshift_contro.Common.{
  String, List, [], ◌∷◌, false, not, ◌≡◌, ◌≢◌, refl, arith, ◌==◌, if◌then◌else◌, filter_by, eq_iff,
  Bool-cases, inl, inr, get, member,
}
use cluster_openshift_contro.Cleanup.Objects.{
  ObjectReference, LocalObjectReference, ServiceAccount, Kube,
}
use cluster_openshift_contro.Cleanup.Account.{
  first_with_prefix, local_names, object_names, image_pull_secret_name, without_refs,
  pull_secret_ref_annotation,
}

module _ (name : String) where
  object_names-filter :
      (other : String) (rs : List ObjectReference)
      → member other (object_names (filter_by (λ r. not (r.name == name)) rs))
        ≡ (if other == name then false else member other (object_names rs))
  object_names-filter other [] = ground arith
  object_names-filter other (r ∷ rs) = ground (
    arith,
    object_names-filter other rs,
    eq_iff r.name name,
    eq_iff r.name other,
    eq_iff other name,
  )

  local_names-filter :
      (other : String) (rs : List LocalObjectReference)
      → member other (local_names (filter_by (λ r. not (r.name == name)) rs))
        ≡ (if other == name then false else member other (local_names rs))
  local_names-filter other [] = ground arith
  local_names-filter other (r ∷ rs) = ground (
    arith,
    local_names-filter other rs,
    eq_iff r.name name,
    eq_iff r.name other,
    eq_iff other name,
  )

  -- `ys` is `xs` without the elements of this name: the others are all there, as they were and in
  -- their order.
  pub data Dropped {A : Type 0} (named : A → String) : List A → List A → Type 0 where
    none_left : Dropped named [] []
    dropped :
        {x : A} {xs ys : List A} → named x ≡ name → Dropped named xs ys → Dropped named (x ∷ xs) ys
    kept :
        {x : A} {xs ys : List A}
        → named x ≢ name
        → Dropped named xs ys
        → Dropped named (x ∷ xs) (x ∷ ys)

  filter-Dropped :
      {A : Type 0} (named : A → String) (xs : List A)
      → Dropped named xs (filter_by (λ x. not (named x == name)) xs)
  filter-Dropped named [] = none_left
  filter-Dropped named (x ∷ xs) = elim (Bool-cases (named x == name)) [
    | inl same ↦ rw same (dropped ((eq_iff (named x) name).0 same) (filter-Dropped named xs))
    | inr other ↦
        rw other (kept (λ e. ground (arith, eq_iff (named x) name)) (filter-Dropped named xs))
  ]

  -- The cleanup of the references drops from both lists exactly those of the name: the other
  -- references stay as they are, in their order and as often as they were, and the rest of the service
  -- account is unchanged.
  pub without_refs-Dropped :
      (sa : ServiceAccount)
      → Dropped (λ r. r.name) sa.secrets (without_refs name sa).secrets
        × Dropped (λ r. r.name) sa.image_pull_secrets (without_refs name sa).image_pull_secrets
        × ((without_refs name sa).annotations ≡ sa.annotations)
        × ((without_refs name sa).name ≡ sa.name)
        × ((without_refs name sa).namespace ≡ sa.namespace)
  unfolding without_refs
  without_refs-Dropped sa = (
    filter-Dropped (λ r. r.name) sa.secrets,
    filter-Dropped (λ r. r.name) sa.image_pull_secrets,
    refl,
    refl,
    refl,
  )

  first_with_prefix-ne :
      (prefix : String) (names : List String)
      → name ≢ ""
      → member name names ≡ false
      → first_with_prefix prefix names ≢ name
  unfolding first_with_prefix
  first_with_prefix-ne prefix [] h m e = ground arith
  first_with_prefix-ne prefix (x ∷ xs) h m e =
      ground (arith, first_with_prefix-ne prefix xs h, eq_iff x name)

  -- A service account without the annotation no longer leads to the secret whose references were
  -- dropped, so that its cleanup is not repeated.
  pub image_pull_secret_name-without_refs :
      {W : Type 0} (k : Kube W) (sa : ServiceAccount)
      → name ≢ ""
      → get pull_secret_ref_annotation sa.annotations ≡ ""
      → image_pull_secret_name k (without_refs name sa) ≢ name
  unfolding image_pull_secret_name without_refs
  image_pull_secret_name-without_refs k sa h none_there e =
      let prefix = k.get_name sa.name "dockercfg-" 58 in
      ground (
        arith,
        first_with_prefix-ne prefix (local_names (without_refs name sa).image_pull_secrets) h,
        first_with_prefix-ne prefix (object_names (without_refs name sa).secrets) h,
        eq_iff name name,
        eq_iff (get pull_secret_ref_annotation sa.annotations) "",
        object_names-filter name sa.secrets,
        local_names-filter name sa.image_pull_secrets,
      )
