-- ===== src/Observe/Network/Outcome.antt =====
-- What is observed of the CIDRs from which external addresses are assigned.
use cluster_openshift_contro.Common.{
  String, List, [], ◌∷◌, Option, none, some, ◌≡◌, ◌⊎◌, inl, inr, refl, ap, ◌∙◌,
}
use cluster_openshift_contro.Common.Fault.{Fault, Result, ok, err}
use cluster_openshift_contro.Cluster.{Lister}
use cluster_openshift_contro.Observe.Unstructured.{Unstructured, IsLawful}
use cluster_openshift_contro.Observe.Listers.{Listers}
use cluster_openshift_contro.Observe.Network.{
  ingress_ip_path, only_one_cidr, keep_cidr, with_error, after_kept,
  observe_external_ip_auto_assign_cidrs,
}

-- The one CIDR that a configuration can have, or none.
pub data IsCidr : List String → String → Type 0 where
  no_cidr : IsCidr [] ""
  one_cidr : (c : String) → IsCidr (c ∷ []) c

-- Why there is no CIDR to observe.
pub data IsUnusable : Result (List String) → Fault → Type 0 where
  unreadable : (e : Fault) → IsUnusable (err e) e
  too_many : (c d : String) (cs : List String) → IsUnusable (ok (c ∷ d ∷ cs)) only_one_cidr

module _ {Json Config Network : Type 0} (u : Unstructured Json Config) (lawful : IsLawful u)
    (cidrs : Lister Network → Result (List String)) (listers : Listers Json Network)
    (existing : Config) where
  kept_lem :
      (old : Option String)
      → ((keep_cidr u (ok old)).1 ≡ none)
        × (u.nested_string (keep_cidr u (ok old)).0 ingress_ip_path ≡ ok old)
        × ((s : String)
            → (u.set_nested_field (keep_cidr u (ok old)).0 ingress_ip_path (u.of_text s)).1 ≡ none)
  kept_lem none =
      let k : String = "ingress" in
      let ks : List String = "ingressIPNetworkCIDR" ∷ [] in
      (refl, lawful.empty_text k ks, λ s. lawful.set_empty k ks (u.of_text s))
  kept_lem (some t) =
      let k : String = "ingress" in
      let ks : List String = "ingressIPNetworkCIDR" ∷ [] in
      let done = lawful.set_empty k ks (u.of_text t) in
      (
        done,
        lawful.text_set u.empty ingress_ip_path t done,
        λ s. lawful.set_again u.empty ingress_ip_path (u.of_text t) (u.of_text s) done,
      )

  with_error-none : (r : Config × Option Fault) → r.1 ≡ none → with_error u r ≡ (r.0, [])
  with_error-none (out, none) h = refl
  with_error-none (out, some e) h = absurd (cc)

  set_lem :
      (out : Config) (s : String)
      → (u.set_nested_field out ingress_ip_path (u.of_text s)).1 ≡ none
      → ((with_error u (u.set_nested_field out ingress_ip_path (u.of_text s))).1 ≡ [])
        × (u.nested_string
              (with_error u (u.set_nested_field out ingress_ip_path (u.of_text s))).0
              ingress_ip_path
            ≡ ok (some s))
  set_lem out s h =
      let same = with_error-none (u.set_nested_field out ingress_ip_path (u.of_text s)) h in
      (
        ap (λ r. r.1) same,
        ap (λ r. u.nested_string r.0 ingress_ip_path) same
            ∙ lawful.text_set out ingress_ip_path s h,
      )

  after_kept_lem :
      (old : Option String) (kept : Config × Option Fault) (r : Result (List String))
      → kept.1 ≡ none
      → u.nested_string kept.0 ingress_ip_path ≡ ok old
      → ((s : String) → (u.set_nested_field kept.0 ingress_ip_path (u.of_text s)).1 ≡ none)
      → ((cs : List String) × (c : String) × (r ≡ ok cs)
          × IsCidr cs c
          × ((after_kept u r kept).1 ≡ [])
          × (u.nested_string (after_kept u r kept).0 ingress_ip_path ≡ ok (some c)))
        ⊎ ((e : Fault) × IsUnusable r e
            × ((after_kept u r kept).1 ≡ e ∷ [])
            × (u.nested_string (after_kept u r kept).0 ingress_ip_path ≡ ok old))
  after_kept_lem old (out, some e) r h l s = absurd (cc)
  after_kept_lem old (out, none) (err e) h l s = inr (e, unreadable e, refl, l)
  after_kept_lem old (out, none) (ok []) h l s =
      let (no_error, found) = set_lem out "" (s "") in inl ([], "", refl, no_cidr, no_error, found)
  after_kept_lem old (out, none) (ok (c ∷ [])) h l s =
      let (no_error, found) = set_lem out c (s c) in
      inl (c ∷ [], c, refl, one_cidr c, no_error, found)
  after_kept_lem old (out, none) (ok (c ∷ d ∷ cs)) h l s =
      inr (only_one_cidr, too_many c d cs, refl, l)

  -- If the existing CIDR can be read, either the cluster has at most one CIDR, and this one, or the
  -- empty text for none, is observed without an error; or they cannot be read or are more than one,
  -- and the existing value is kept with the error.
  pub observe_external_ip_lem :
      (old : Option String)
      → u.nested_string existing ingress_ip_path ≡ ok old
      → ((cs : List String) × (c : String) × (cidrs listers.network_lister ≡ ok cs)
          × IsCidr cs c
          × ((observe_external_ip_auto_assign_cidrs u cidrs listers existing).1 ≡ [])
          × (u.nested_string
                (observe_external_ip_auto_assign_cidrs u cidrs listers existing).0
                ingress_ip_path
              ≡ ok (some c)))
        ⊎ ((e : Fault) × IsUnusable (cidrs listers.network_lister) e
            × ((observe_external_ip_auto_assign_cidrs u cidrs listers existing).1 ≡ e ∷ [])
            × (u.nested_string
                  (observe_external_ip_auto_assign_cidrs u cidrs listers existing).0
                  ingress_ip_path
                ≡ ok old))
  unfolding observe_external_ip_auto_assign_cidrs
  observe_external_ip_lem old h =
      let (no_error, kept, writes) = kept_lem old in
      rw h (
        after_kept_lem old (keep_cidr u (ok old)) (cidrs listers.network_lister) no_error kept
          writes)
