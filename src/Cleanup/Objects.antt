-- ===== src/Cleanup/Objects.antt =====
-- The objects and the API of the cleanup controller. `W` is the state of the cluster and the clock.
use cluster_openshift_contro.Common.{ℕ, String, List, Option, Bool, Assoc}
use cluster_openshift_contro.Common.Fault.{Fault, Result}

-- corev1.Secret; the creation timestamp in nanoseconds
pub record Secret : Type 0 where
  pub name : String
  pub namespace : String
  pub annotations : Assoc String
  pub creation_timestamp : ℕ

-- corev1.ObjectReference, with one field for all that is not read
pub record ObjectReference : Type 0 where
  pub name : String
  pub details : String

-- corev1.LocalObjectReference
pub record LocalObjectReference : Type 0 where
  pub name : String

pub record ServiceAccount : Type 0 where
  pub name : String
  pub namespace : String
  pub annotations : Assoc String
  pub secrets : List ObjectReference
  pub image_pull_secrets : List LocalObjectReference

-- corev1.Pod, Spec.ImagePullSecrets
pub record Pod : Type 0 where
  pub image_pull_secrets : List LocalObjectReference

-- The listers, the clock, the context and the API server, and `naming.GetName` of library-go.
pub record Kube (W : Type 0) : Type 0 where
  pub list_service_accounts : W → Result (List ServiceAccount)
  -- by namespace and name
  pub get_secret : String → String → W → Result Secret
  pub list_pods : String → W → Result (List Pod)
  -- time.Now(), in nanoseconds
  pub now : W → ℕ
  -- <-ctx.Done()
  pub is_done : W → Bool
  pub delete_secret : String → String → W → Option Fault × W
  -- the object that the lister gives is the one in its cache: what is assigned to its fields is read
  -- again from there
  pub assign_service_account : ServiceAccount → W → W
  pub update_service_account : ServiceAccount → W → Option Fault × W
  -- what others do to the cluster before the next service account is looked at
  pub next : W → W
  pub get_name : String → String → ℕ → String
