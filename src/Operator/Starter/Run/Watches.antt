-- ===== src/Operator/Starter/Run/Watches.antt =====
-- The informers by which the controllers of pkg/operator/usercaobservation and of
-- pkg/operator/internalimageregistry are triggered.
use mathlib.Core.List.{Memᴰ}
use mathlib.Core.Option.{some_inj}
use mathlib.Core.Path.{subst}
use cluster_openshift_contro.Common.{
  ℕ, String, List, [], ◌∷◌, ◌++◌, Option, none, some, Bool, true, false, ◌≡◌, refl, member, sym, ap,
  ◌∙◌, inl, inr,
}
use cluster_openshift_contro.Common.Fault.{Result}
use cluster_openshift_contro.Cluster.{capability_enabled}
use cluster_openshift_contro.Names.{capability_build}
use cluster_openshift_contro.Operator.Starter.Run.{
  Started, config_informers, operator_config_informers, kube_informers, user_ca_observer,
  image_pull_secret_cleanup, feature_gate_accessor, Environment, run_operator,
}
use cluster_openshift_contro.Operator.Starter.Run.Order.{everything, run_operator_lem}
use cluster_openshift_contro.Operator.Starter.Run.Resources.{kube_informer_namespaces}

-- The factory of an informer: that of a namespace, all of them being the empty one, of the
-- configuration of the cluster, or of the operators' resources.
pub data Factory : Type 0 where
  kube : String → Factory
  config operator : Factory

pub record Watch : Type 0 where
  pub factory : Factory
  pub resource : String

abbrev watch : Factory → String → Watch
watch factory resource = record { factory = factory; resource = resource }

-- What factory.New() is given, the sync function apart; the time in minutes.
pub record Controller : Type 0 where
  pub name : String
  pub suffix : String
  pub informers : List Watch
  pub resync_every : Option ℕ

-- usercaobservation.NewController
abbrev pub user_ca_controller : Controller
user_ca_controller = record {
  name = "UserCAObservationController";
  suffix = "user-ca-observation-controller";
  informers = watch operator "openshiftcontrollermanagers" ∷ watch config "proxies" ∷ [];
  resync_every = some 10;
}

-- NewImagePullSecretCleanupController; metav1.NamespaceAll is empty.
abbrev pub image_pull_secret_cleanup_controller : Controller
image_pull_secret_cleanup_controller = record {
  name = "ImagePullSecretCleanupController";
  suffix = "image-pull-secret-cleanup-controller";
  informers =
      watch (kube "") "serviceaccounts"
      ∷ watch (kube "") "secrets"
      ∷ watch (kube "") "pods"
      ∷ watch config "clusterversions"
      ∷ watch config "clusteroperators"
      ∷ [];
  resync_every = none;
}

abbrev pub watches : List Watch
watches = user_ca_controller.informers ++ image_pull_secret_cleanup_controller.informers

abbrev pub start_of : Factory → Started
start_of (kube namespace) = kube_informers
start_of config = config_informers
start_of operator = operator_config_informers

-- The kube informers are made for each namespace on its own.
abbrev pub is_made : Factory → Bool
is_made (kube namespace) = member namespace kube_informer_namespaces
is_made config = true
is_made operator = true

-- The controllers that RunOperator starts under these names.
pub data IsController : Started → Controller → Type 0 where
  user_ca : IsController user_ca_observer user_ca_controller
  cleanup : IsController image_pull_secret_cleanup image_pull_secret_cleanup_controller

not_early :
    {c : Started} {controller : Controller}
    → IsController c controller
    → ¬ Memᴰ c (feature_gate_accessor ∷ config_informers ∷ [])
not_early user_ca (Memᴰ.head e) = absurd (cc)
not_early user_ca (Memᴰ.tail (Memᴰ.head e)) = absurd (cc)
not_early user_ca (Memᴰ.tail (Memᴰ.tail m)) = elim m [ ]
not_early cleanup (Memᴰ.tail (Memᴰ.tail m)) = elim m [ ]
not_early cleanup (Memᴰ.head e) = absurd (cc)
not_early cleanup (Memᴰ.tail (Memᴰ.head e)) = absurd (cc)

not_empty : {c : Started} → ¬ Memᴰ c []
not_empty m = elim m [ ]

-- The factories that are used are started, with and without the capability Build.
abbrev IsServed : Factory → Type 0
IsServed f = ((b : Bool) → Memᴰ (start_of f) (everything b)) × (is_made f ≡ true)

config_started : (b : Bool) → Memᴰ config_informers (everything b)
config_started true = Memᴰ.tail (Memᴰ.head refl)
config_started false = Memᴰ.tail (Memᴰ.head refl)

operator_started : (b : Bool) → Memᴰ operator_config_informers (everything b)
operator_started true = Memᴰ.tail (Memᴰ.tail (Memᴰ.tail (Memᴰ.head refl)))
operator_started false = Memᴰ.tail (Memᴰ.tail (Memᴰ.tail (Memᴰ.head refl)))

kube_started : (b : Bool) → Memᴰ kube_informers (everything b)
kube_started true = Memᴰ.tail (Memᴰ.tail (Memᴰ.tail (Memᴰ.tail (Memᴰ.head refl))))
kube_started false = Memᴰ.tail (Memᴰ.tail (Memᴰ.tail (Memᴰ.tail (Memᴰ.head refl))))

config-IsServed : IsServed config
config-IsServed = (config_started, refl)

operator-IsServed : IsServed operator
operator-IsServed = (operator_started, refl)

all_namespaces-IsServed : IsServed (kube "")
all_namespaces-IsServed = (kube_started, refl)

informers-IsServed :
    {c : Started} {controller : Controller} {w : Watch}
    → IsController c controller
    → Memᴰ w controller.informers
    → IsServed w.factory
informers-IsServed user_ca (Memᴰ.head e) = rw e operator-IsServed
informers-IsServed user_ca (Memᴰ.tail (Memᴰ.head e)) = rw e config-IsServed
informers-IsServed user_ca (Memᴰ.tail (Memᴰ.tail m)) = elim m [ ]
informers-IsServed cleanup (Memᴰ.tail (Memᴰ.tail (Memᴰ.tail (Memᴰ.tail (Memᴰ.tail m))))) =
    elim m [ ]
informers-IsServed cleanup (Memᴰ.head e) = rw e all_namespaces-IsServed
informers-IsServed cleanup (Memᴰ.tail (Memᴰ.head e)) = rw e all_namespaces-IsServed
informers-IsServed cleanup (Memᴰ.tail (Memᴰ.tail (Memᴰ.head e))) = rw e all_namespaces-IsServed
informers-IsServed cleanup (Memᴰ.tail (Memᴰ.tail (Memᴰ.tail (Memᴰ.head e)))) = rw e config-IsServed
informers-IsServed cleanup (Memᴰ.tail (Memᴰ.tail (Memᴰ.tail (Memᴰ.tail (Memᴰ.head e))))) =
    rw e config-IsServed

-- If RunOperator has started the user CA controller or the cleanup controller, it has started the
-- factory of each informer that triggers it, which was made for its namespace.
pub run_operator-served :
    {Q : Type 0} (env : Environment Q) {r : Result (Unit {0})} {started : List Started}
    {c : Started} {controller : Controller} {w : Watch}
    → run_operator env [] ≡ some (r, started)
    → IsController c controller
    → Memᴰ c started
    → Memᴰ w controller.informers
    → Memᴰ (start_of w.factory) started × (is_made w.factory ≡ true)
run_operator-served env {c} {w} ran is_controller has watched =
    let (e, started', ran', outcome) = run_operator_lem env in
    let same = ap (λ x. x.1) (some_inj.0 (sym ran' ∙ ran)) in
    let (starts, made) = informers-IsServed is_controller watched in
    elim outcome [
      | inl (inl nothing, why) ↦ absurd (not_empty (subst (Memᴰ c) (sym same ∙ nothing) has))
      | inl (inr early, why) ↦
          absurd (not_early is_controller (subst (Memᴰ c) (sym same ∙ early) has))
      | inr (cv, ready, all_started, reason) ↦ (
        subst (Memᴰ (start_of w.factory)) (sym all_started ∙ same)
            (starts (capability_enabled capability_build cv)),
        made,
      )
    ]
