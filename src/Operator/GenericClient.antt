-- ===== src/Operator/GenericClient.antt =====
-- pkg/operator/generic_client.go: the operator resource as library-go's controllers see it. The
-- lister, the API client, the clock and the generated apply configurations are a parameter.
pub mod Outcome
pub mod Again
pub mod Checks
use cluster_openshift_contro.Common.{
  String, Option, none, some, Bool, true, false, if◌then◌else◌, ◌<>◌, quote,
}
use cluster_openshift_contro.Common.Fault.{Fault, Result, ok, err, is_not_found, wrap, errorf}

-- operatorapiv1.OpenShiftControllerManager: its metadata but for the version, and the parts of the
-- spec and the status that all operators have.
pub record Resource (Meta Spec Status : Type 0) : Type 0 where
  pub meta : Meta
  pub resource_version : String
  pub operator_spec : Spec
  pub operator_status : Status

-- `SpecConfig` and `StatusConfig` are the apply configurations of the spec and the status, `Config`
-- that of the resource, `Previous` the status that is extracted of a resource.
pub record Client (W Meta Spec Status SpecConfig StatusConfig Config Previous : Type 0)
    : Type 0 where
  pub lister_get : W → Result (Resource Meta Spec Status)
  pub client_get : W → Result (Resource Meta Spec Status)
  pub update : Resource Meta Spec Status → W → Result (Resource Meta Spec Status) × W
  pub update_status : Resource Meta Spec Status → W → Result (Resource Meta Spec Status) × W
  pub apply : String → Config → W → Option Fault × W
  pub apply_status : String → Config → W → Option Fault × W
  pub patch_status : String → W → Option Fault × W
  -- the configuration named "cluster" with a spec or a status, and DeepEqual
  pub with_spec : SpecConfig → Config
  pub with_status : StatusConfig → Config
  pub same_config : Config → Config → Bool
  -- what a field manager owns of a resource
  pub extract : Resource Meta Spec Status → String → Result Config
  pub extract_status : Resource Meta Spec Status → String → Result (Option Previous)
  -- the status configuration through JSON
  pub marshal : Previous → Result String
  pub unmarshal : String → Result StatusConfig
  pub empty_status : StatusConfig
  -- are the conditions there; SetApplyConditionsLastTransitionTime; CanonicalizeOperatorStatus
  pub has_conditions : StatusConfig → Bool
  pub set_transition_times : Option StatusConfig → StatusConfig → W → StatusConfig
  pub canonicalize : StatusConfig → StatusConfig

abbrev pub no_value : Fault
no_value = errorf "applyConfiguration must have a value"

module _ {W Meta Spec Status SpecConfig StatusConfig Config Previous : Type 0}
    (client : Client W Meta Spec Status SpecConfig StatusConfig Config Previous) where
  abbrev pub map_result {ℓ κ} : {A : Type ℓ} {B : Type κ} → (A → B) → Result A → Result B
  map_result f (ok a) = ok (f a)
  map_result f (err e) = err e

  unfoldable pub current_status : W → Result Status
  current_status w = map_result (λ r. r.operator_status) (client.lister_get w)

  unfoldable pub get_operator_state : W → Result (Spec × Status × String)
  get_operator_state w =
      map_result (λ r. (r.operator_spec, r.operator_status, r.resource_version))
        (client.lister_get w)

  unfoldable pub get_object_meta : W → Result (Meta × String)
  get_object_meta w = map_result (λ r. (r.meta, r.resource_version)) (client.lister_get w)

  unfoldable pub get_operator_state_with_quorum : W → Result (Spec × Status × String)
  get_operator_state_with_quorum w =
      map_result (λ r. (r.operator_spec, r.operator_status, r.resource_version))
        (client.client_get w)

  abbrev pub keep_state {ℓ κ} : {A : Type ℓ} {B : Type κ} → (A → B) → Result A × W → Result B × W
  keep_state f (r, w) = (map_result f r, w)

  abbrev pub update_spec_of :
      String → Spec → Result (Resource Meta Spec Status) → W → Result (Spec × String) × W
  update_spec_of version spec (err e) w = (err e, w)
  update_spec_of version spec (ok r) w =
      keep_state (λ r. (r.operator_spec, r.resource_version))
        (client.update (record r { resource_version = version; operator_spec = spec }) w)

  unfoldable pub update_operator_spec : String → Spec → W → Result (Spec × String) × W
  update_operator_spec version spec w = update_spec_of version spec (client.lister_get w) w

  abbrev pub update_status_of :
      String → Status → Result (Resource Meta Spec Status) → W → Result Status × W
  update_status_of version status (err e) w = (err e, w)
  update_status_of version status (ok r) w =
      keep_state (λ r. r.operator_status)
        (client.update_status (record r { resource_version = version; operator_status = status }) w)

  unfoldable pub update_operator_status : String → Status → W → Result Status × W
  update_operator_status version status w = update_status_of version status (client.lister_get w) w

  abbrev pub apply_context : String → String
  apply_context manager =
      "unable to Apply for operator using fieldManager " <> (quote manager <> ": ")

  abbrev pub applied : String → Option Fault × W → Option Fault × W
  applied manager (none, w) = (none, w)
  applied manager (some e, w) = (some (wrap (apply_context manager) e), w)

  abbrev pub apply_unless_same :
      (String → Config → W → Option Fault × W)
      → String
      → Config
      → Result Config
      → W
      → Option Fault × W
  apply_unless_same send manager desired (err e) w = (some e, w)
  apply_unless_same send manager desired (ok original) w =
      if client.same_config original desired
      then (none, w)
      else applied manager (send manager desired w)

  abbrev pub extract_context : Result Config → Result Config
  extract_context (ok c) = ok c
  extract_context (err e) = err (wrap "unable to extract operator configuration: " e)

  abbrev pub apply_spec_of :
      String → Config → Result (Resource Meta Spec Status) → W → Option Fault × W
  apply_spec_of manager desired (err e) w =
      if is_not_found e
      then applied manager (client.apply manager desired w)
      else (some (wrap "unable to get operator configuration: " e), w)
  apply_spec_of manager desired (ok r) w =
      apply_unless_same client.apply manager desired (extract_context (client.extract r manager)) w

  unfoldable pub apply_operator_spec : String → Option SpecConfig → W → Option Fault × W
  apply_operator_spec manager none w = (some no_value, w)
  apply_operator_spec manager (some spec) w =
      apply_spec_of manager (client.with_spec spec) (client.client_get w) w

  abbrev pub deserialized : Result StatusConfig → Result StatusConfig
  deserialized (ok s) = ok s
  deserialized (err e) = err (wrap "unable to deserialize operator configuration: " e)

  abbrev pub serialized : Result String → Result StatusConfig
  serialized (ok s) = deserialized (client.unmarshal s)
  serialized (err e) = err (wrap "unable to serialize operator configuration: " e)

  -- The status that the field manager has applied before; one without fields if there is none.
  abbrev pub previous_status : Result (Option Previous) → Result StatusConfig
  previous_status (err e) = err (wrap "unable to extract operator configuration: " e)
  previous_status (ok none) = ok client.empty_status
  previous_status (ok (some p)) = serialized (client.marshal p)

  abbrev pub timed : StatusConfig → StatusConfig → W → StatusConfig
  timed previous desired w =
      if client.has_conditions desired
      then client.set_transition_times (some previous) desired w
      else desired

  abbrev pub apply_over : String → StatusConfig → Result StatusConfig → W → Option Fault × W
  apply_over manager desired (err e) w = (some e, w)
  apply_over manager desired (ok previous) w =
      apply_unless_same client.apply_status manager
        (client.with_status (client.canonicalize (timed previous desired w)))
        (ok (client.with_status (client.canonicalize previous))) w

  abbrev pub apply_status_of :
      String → StatusConfig → Result (Resource Meta Spec Status) → W → Option Fault × W
  apply_status_of manager desired (err e) w =
      if is_not_found e
      then applied manager (
          client.apply_status manager
            (client.with_status (client.set_transition_times none desired w)) w)
      else (some (wrap "unable to get operator configuration: " e), w)
  apply_status_of manager desired (ok r) w =
      apply_over manager desired (previous_status (client.extract_status r manager)) w

  unfoldable pub apply_operator_status : String → Option StatusConfig → W → Option Fault × W
  apply_operator_status manager none w = (some no_value, w)
  apply_operator_status manager (some status) w =
      apply_status_of manager status (client.client_get w) w

  -- PatchOperatorStatus, from the patch as JSON
  unfoldable pub patch_operator_status : Result String → W → Option Fault × W
  patch_operator_status (err e) w = (some e, w)
  patch_operator_status (ok patch) w = client.patch_status patch w
