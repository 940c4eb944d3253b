-- ===== src/Cluster.antt =====
-- The cluster objects that several components read through listers, with the fields that are read.
use cluster_openshift_contro.Common.{String, List, Bool, any, ◌==◌}
use cluster_openshift_contro.Common.Fault.{Result}

-- `lister.Get(name)` from an informer's cache: the object or the lister's error.
abbrev pub Lister {ℓ} : Type ℓ → Type ℓ
Lister A = String → Result A

-- configv1.ClusterVersion, Status.Capabilities
pub record ClusterVersion : Type 0 where
  pub known_capabilities : List String
  pub enabled_capabilities : List String

-- configv1.ClusterOperatorStatusCondition
pub record StatusCondition : Type 0 where
  pub kind : String
  pub reason : String

-- configv1.ClusterOperator, Status.Conditions
pub record ClusterOperator : Type 0 where
  pub conditions : List StatusCondition

-- for _, capability := range cv.Status.Capabilities.EnabledCapabilities: found?
unfoldable pub capability_enabled : String → ClusterVersion → Bool
capability_enabled capability cv = any (λ c. c == capability) cv.enabled_capabilities
