-- ===== src/Observe/Network.antt =====
-- pkg/operator/configobservation/network/observe_network.go. `cidrs` is the function
-- GetExternalIPAutoAssignCIDRs of library-go.
pub mod Outcome
use cluster_openshift_contro.Common.{
  String, List, [], ◌∷◌, Option, none, some, Bool, true, false, if◌then◌else◌,
}
use cluster_openshift_contro.Common.Fault.{Fault, Result, ok, err, errorf}
use cluster_openshift_contro.Cluster.{Lister}
use cluster_openshift_contro.Observe.Unstructured.{Unstructured}
use cluster_openshift_contro.Observe.Listers.{Listers}

abbrev pub ingress_ip_path : List String
ingress_ip_path = "ingress" ∷ "ingressIPNetworkCIDR" ∷ []

abbrev pub only_one_cidr : Fault
only_one_cidr =
    errorf
      "error reading networks.config.openshift.io/cluster Spec.ExternalIP.AutoAssignCIDRs: only one CIDR is supported"

module _ {Json Config : Type 0} (u : Unstructured Json Config) where
  open u use {empty, of_text, nested_string, set_nested_field}

  -- The existing value is kept as it is, also an empty one.
  abbrev pub keep_cidr : Result (Option String) → Config × Option Fault
  keep_cidr (err e) = (empty, some e)
  keep_cidr (ok none) = (empty, none)
  keep_cidr (ok (some s)) = set_nested_field empty ingress_ip_path (of_text s)

  abbrev pub write_cidr : Config → List String → Config × Option Fault
  write_cidr out [] = set_nested_field out ingress_ip_path (of_text "")
  write_cidr out (c ∷ []) = set_nested_field out ingress_ip_path (of_text c)
  write_cidr out (c ∷ d ∷ cs) = (out, some only_one_cidr)

  abbrev pub with_error : Config × Option Fault → Config × List Fault
  with_error (out, none) = (out, [])
  with_error (out, some e) = (out, e ∷ [])

  abbrev pub with_cidrs : Config → Result (List String) → Config × List Fault
  with_cidrs out (err e) = (out, e ∷ [])
  with_cidrs out (ok cs) = with_error (write_cidr out cs)

  abbrev pub after_kept : Result (List String) → Config × Option Fault → Config × List Fault
  after_kept cs (out, some e) = (out, e ∷ [])
  after_kept cs (out, none) = with_cidrs out cs

  unfoldable pub observe_external_ip_auto_assign_cidrs :
      {V Network : Type 0}
      → (Lister Network → Result (List String))
      → Listers V Network
      → Config
      → Config × List Fault
  observe_external_ip_auto_assign_cidrs cidrs listers existing =
      after_kept (cidrs listers.network_lister) (keep_cidr (nested_string existing ingress_ip_path))
