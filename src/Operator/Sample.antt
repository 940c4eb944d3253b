-- ===== src/Operator/Sample.antt =====
-- A cluster in memory, on which the operator's functions are run.
use cluster_openshift_contro.Common.{
  ◌&&◌, String, List, [], ◌∷◌, ◌++◌, Option, none, some, Bool, true, false, ◌≡◌, ◌↔◌, ◌==◌,
  if◌then◌else◌, refl, arith, eq_iff, lookup, Bool-cases, inl, inr, ap, sym,
}
use mathlib.Core.Option.{some_inj}
use cluster_openshift_contro.Common.Fault.{Fault, Reason, Result, ok, err}
use cluster_openshift_contro.Common.Int.{pos, int_eq, int_eq_iff}
use cluster_openshift_contro.Operator.Capabilities.{controller_capabilities}
use cluster_openshift_contro.Operator.Types.{
  ConditionStatus, condition_true, condition_false, OperatorCondition, OperatorStatus,
  OperatorConfig, GenerationStatus, ConfigMap, Container, EnvVar, Deployment, Proxy,
}
use cluster_openshift_contro.Operator.Api.{
  Api, IsLawful, find_condition, find_generation, generation_of,
}

-- What was written: ConfigMaps, deployments, statuses and events. A nonempty `failing` makes the
-- calls fail that it names.
pub record World : Type 0 where
  pub maps : List ConfigMap
  pub deployments : List Deployment
  pub statuses : List OperatorStatus
  pub events : List String
  pub failing : List (String × Fault)

abbrev same_flag : ConditionStatus → ConditionStatus → Bool
same_flag condition_true condition_true = true
same_flag condition_false condition_false = true
same_flag condition_true condition_false = false
same_flag condition_false condition_true = false

abbrev same_condition : OperatorCondition → OperatorCondition → Bool
same_condition a b =
    a.kind == b.kind
    && same_flag a.status b.status
    && a.reason == b.reason
    && a.message == b.message

abbrev same_generation : GenerationStatus → GenerationStatus → Bool
same_generation a b =
    a.namespace == b.namespace && a.name == b.name && int_eq a.last_generation b.last_generation

abbrev same_list {ℓ} : {A : Type ℓ} → (A → A → Bool) → List A → List A → Bool
same_list f [] [] = true
same_list f [] (y ∷ ys) = false
same_list f (x ∷ xs) [] = false
same_list f (x ∷ xs) (y ∷ ys) = f x y && same_list f xs ys

abbrev same_status_of : OperatorStatus → OperatorStatus → Bool
same_status_of a b =
    int_eq a.observed_generation b.observed_generation
    && same_list same_condition a.conditions b.conditions
    && a.version == b.version
    && same_list same_generation a.generations b.generations

same_flag_iff : (a b : ConditionStatus) → (same_flag a b ≡ true) ↔ (a ≡ b)
same_flag_iff condition_true condition_true = (λ _. refl, λ _. refl)
same_flag_iff condition_false condition_false = (λ _. refl, λ _. refl)
same_flag_iff condition_true condition_false = (λ e. absurd (cc), λ e. absurd (cc))
same_flag_iff condition_false condition_true = (λ e. absurd (cc), λ e. absurd (cc))

same_list_iff {ℓ} :
    {A : Type ℓ} (f : A → A → Bool)
    → ((a b : A) → (f a b ≡ true) ↔ (a ≡ b))
    → (xs ys : List A) → (same_list f xs ys ≡ true) ↔ (xs ≡ ys)
same_list_iff f h [] [] = (λ _. refl, λ _. refl)
same_list_iff f h [] (y ∷ ys) = (λ e. absurd (cc), λ e. absurd (cc))
same_list_iff f h (x ∷ xs) [] = (λ e. absurd (cc), λ e. absurd (cc))
same_list_iff f h (x ∷ xs) (y ∷ ys) = ground (arith, h x y, same_list_iff f h xs ys)

same_condition_iff : (a b : OperatorCondition) → (same_condition a b ≡ true) ↔ (a ≡ b)
same_condition_iff a b = ground (
  arith,
  eq_iff a.kind b.kind,
  same_flag_iff a.status b.status,
  eq_iff a.reason b.reason,
  eq_iff a.message b.message,
)

same_generation_iff : (a b : GenerationStatus) → (same_generation a b ≡ true) ↔ (a ≡ b)
same_generation_iff a b = ground (
  arith,
  eq_iff a.namespace b.namespace,
  eq_iff a.name b.name,
  int_eq_iff a.last_generation b.last_generation,
)

same_status_of_iff : (a b : OperatorStatus) → (same_status_of a b ≡ true) ↔ (a ≡ b)
same_status_of_iff a b = ground (
  arith,
  int_eq_iff a.observed_generation b.observed_generation,
  same_list_iff same_condition same_condition_iff a.conditions b.conditions,
  eq_iff a.version b.version,
  same_list_iff same_generation same_generation_iff a.generations b.generations,
)

unfoldable pub set_condition_in :
    List OperatorCondition → OperatorCondition → List OperatorCondition
set_condition_in [] c = c ∷ []
set_condition_in (d ∷ ds) c =
    let rest = set_condition_in ds c in if d.kind == c.kind then c ∷ ds else d ∷ rest

find-set_condition_in :
    (cs : List OperatorCondition) (c : OperatorCondition) (kind : String)
    → find_condition kind (set_condition_in cs c)
      ≡ (if c.kind == kind then some c else find_condition kind cs)
unfolding set_condition_in
find-set_condition_in [] c kind = refl
find-set_condition_in (d ∷ ds) c kind = ground (
  arith,
  eq_iff d.kind c.kind,
  eq_iff c.kind kind,
  eq_iff d.kind kind,
  find-set_condition_in ds c kind,
)

set_same_condition_in :
    (cs : List OperatorCondition) (c : OperatorCondition)
    → find_condition c.kind cs ≡ some c
    → set_condition_in cs c ≡ cs
unfolding set_condition_in
set_same_condition_in [] c h = absurd (cc)
set_same_condition_in (d ∷ ds) c h = elim (Bool-cases (d.kind == c.kind)) [
  | inl same ↦ rw same (ap (λ x. x ∷ ds) (sym (some_inj.0 (rw same at h))))
  | inr differs ↦ rw differs (ap (λ x. d ∷ x) (set_same_condition_in ds c (rw differs at h)))
]

unfoldable pub set_generation_in : List GenerationStatus → Deployment → List GenerationStatus
set_generation_in [] d = generation_of d ∷ []
set_generation_in (g ∷ gs) d =
    let rest = set_generation_in gs d in
    if g.namespace == d.namespace && g.name == d.name then generation_of d ∷ gs else g ∷ rest

find-set_generation_in :
    (gs : List GenerationStatus) (d : Deployment) (namespace name : String)
    → find_generation namespace name (set_generation_in gs d) ≡ (
        if d.namespace == namespace && d.name == name
        then some (generation_of d)
        else find_generation namespace name gs)
unfolding set_generation_in
find-set_generation_in [] d namespace name = refl
find-set_generation_in (g ∷ gs) d namespace name = ground (
  arith,
  eq_iff g.namespace d.namespace,
  eq_iff g.name d.name,
  eq_iff d.namespace namespace,
  eq_iff d.name name,
  eq_iff g.namespace namespace,
  eq_iff g.name name,
  find-set_generation_in gs d namespace name,
)

set_same_generation_in :
    (gs : List GenerationStatus) (d : Deployment)
    → find_generation d.namespace d.name gs ≡ some (generation_of d)
    → set_generation_in gs d ≡ gs
unfolding set_generation_in
set_same_generation_in [] d h = absurd (cc)
set_same_generation_in (g ∷ gs) d h =
    elim (Bool-cases (g.namespace == d.namespace && g.name == d.name)) [
      | inl same ↦ rw same (ap (λ x. x ∷ gs) (sym (some_inj.0 (rw same at h))))
      | inr differs ↦ rw differs (ap (λ x. g ∷ x) (set_same_generation_in gs d (rw differs at h)))
    ]

-- A call that `failing` names fails, any other answers.
abbrev answer {ℓ} : {A : Type ℓ} → Option Fault → A → Result A
answer none a = ok a
answer (some e) a = err e

abbrev pub failure : String → World → Option Fault
failure name w = lookup name w.failing

abbrev write {ℓ} : {A : Type ℓ} → Option Fault → A → World → World → Result A × World
write none a w w' = (ok a, w')
write (some e) a w w' = (err e, w)

abbrev pub absent : Fault
absent = record { reason = Reason.not_found; text = "not found" }

abbrev pub an_env : EnvVar
an_env = record { name = "NO_PROXY"; content = "localhost" }

abbrev pub another_env : EnvVar
another_env = record { name = "POD_NAME"; content = "pod" }

abbrev pub container : Container
container = record { image = "image"; args = "start" ∷ []; env = an_env ∷ another_env ∷ [] }

abbrev pub deployment : String → String → Deployment
deployment namespace name = record {
  namespace = namespace;
  name = name;
  generation = pos 2;
  annotations = [];
  spec_replicas = none;
  template_annotations = [];
  node_selector = [];
  first_container = container;
  more_containers = [];
  available_replicas = pos 3;
  updated_replicas = pos 3;
  status_replicas = pos 3;
  observed_generation = pos 2;
}

abbrev pub config_map : String → String → ConfigMap
config_map namespace name = record {
  namespace = namespace;
  name = name;
  resource_version = "7";
  annotations = [];
  contents = [];
}

abbrev pub cluster_proxy : Proxy
cluster_proxy = record {
  http_proxy = "http://proxy";
  https_proxy = "";
  no_proxy = ".cluster.local";
}

abbrev pub config : OperatorConfig
config = record {
  generation = pos 4;
  log_level = "Debug";
  observed_config = "{}";
  unsupported_config_overrides = "";
  status = record { observed_generation = pos 3; conditions = []; version = ""; generations = [] };
}

-- Deployments are applied as they are.
abbrev pub api : Api World
api = record {
  get_operator_config = λ w. answer (failure "operator config" w) config;
  get_cluster_version = λ w.
      answer (failure "cluster version" w)
        (record { known_capabilities = "Build" ∷ []; enabled_capabilities = [] });
  get_config_map = λ ns name w. answer (failure "get config map" w) (config_map ns name);
  get_proxy = λ w. answer (failure "proxy" w) cluster_proxy;
  count_nodes = λ selector w. answer (failure "nodes" w) (some (pos 3));
  input_hashes = λ refs w. answer (failure "hashes" w) (("client-ca.configmap", "abc") ∷ []);
  create_config_map = λ cm w. write (failure "create" w) cm w (record w { maps = cm ∷ w.maps });
  update_config_map = λ cm w. write (failure "update" w) cm w (record w { maps = cm ∷ w.maps });
  apply_config_map = λ cm w. write (failure "apply" w) cm w (record w { maps = cm ∷ w.maps });
  sync_config_map = λ ns name ns' name' w. (answer (failure "sync" w) none, w);
  apply_deployment = λ d generation w.
      write (failure "deployment" w) d w (record w { deployments = d ∷ w.deployments });
  update_status = λ c w. (failure "status" w, record w { statuses = c.status ∷ w.statuses });
  record_event = λ event w. record w { events = event ∷ w.events };
  config_map_asset = λ path. config_map "openshift-controller-manager" path;
  deployment_asset = λ path. deployment "openshift-controller-manager" path;
  asset = λ path. path;
  marshal = λ texts. ok "[]";
  release_version = "4.16";
  merge_config_map = λ cm key layers. ok cm;
  ensure_object_meta = λ existing required. (false, existing);
  merge_map = λ existing required. required ++ existing;
  expected_deployment_generation = λ d generations. pos 2;
  set_deployment_generation = set_generation_in;
  ensure_at_most_one_pod_per_node = λ d namespace. ok d;
  set_operator_condition = set_condition_in;
  same_status = same_status_of;
  map_order = controller_capabilities;
}

pub api-IsLawful : IsLawful api
api-IsLawful = record {
  find_set = find-set_condition_in;
  set_same = set_same_condition_in;
  find_set_generation = find-set_generation_in;
  set_same_generation = set_same_generation_in;
  same_status_iff = same_status_of_iff;
}

abbrev pub world : List (String × Fault) → World
world failing = record {
  maps = [];
  deployments = [];
  statuses = [];
  events = [];
  failing = failing;
}
