-- ===== src/Operator/GenericClient/Checks.antt =====
-- The theorems on the generic client at concrete inputs.
use cluster_openshift_contro.Common.{
  String, List, [], ◌∷◌, Option, none, some, true, false, ◌≡◌, ◌⊎◌, ◌==◌, eq_iff, refl, ap, sym,
}
use cluster_openshift_contro.Common.Fault.{Fault, Reason, Result, ok, err, is_not_found}
use cluster_openshift_contro.Operator.GenericClient.{
  Resource, Client, apply_operator_status, applied, previous_status,
}
use cluster_openshift_contro.Operator.GenericClient.Outcome.{
  IsUnknown, desired_over, apply_operator_status_lem,
}
use cluster_openshift_contro.Operator.GenericClient.Again.{IsServer, apply_operator_status-again}

abbrev Text : Type 0
Text = Resource String String String

abbrev resource : Text
resource = record {
  meta = "cluster";
  resource_version = "7";
  operator_spec = "managed";
  operator_status = "available";
}

-- The cluster is the list of what was sent.
abbrev client : Client (List String) String String String String String String String
client = record {
  lister_get = λ w. ok resource;
  client_get = λ w. ok resource;
  update = λ r w. (ok r, r.operator_spec ∷ w);
  update_status = λ r w. (ok r, r.operator_status ∷ w);
  apply = λ manager c w. (none, c ∷ w);
  apply_status = λ manager c w. (none, c ∷ w);
  patch_status = λ patch w. (none, patch ∷ w);
  with_spec = λ s. s;
  with_status = λ s. s;
  same_config = λ a b. a == b;
  extract = λ r manager. ok r.operator_spec;
  extract_status = λ r manager. ok (some r.operator_status);
  marshal = λ p. ok p;
  unmarshal = λ s. ok s;
  empty_status = "";
  has_conditions = λ s. true;
  set_transition_times = λ previous s w. s;
  canonicalize = λ s. s;
}

apply_operator_status_lem_example :
    ((r : Text) × (previous : String) × (client.client_get [] ≡ ok r)
      × (previous_status client (client.extract_status r "manager") ≡ ok previous)
      × ((client.same_config previous (desired_over client previous "degraded" []) ≡ true)
            × (apply_operator_status client "manager" (some "degraded") [] ≡ (none, []))
          ⊎ (client.same_config previous (desired_over client previous "degraded" []) ≡ false)
            × (apply_operator_status client "manager" (some "degraded") []
                ≡ applied client "manager" (
                    client.apply_status "manager"
                      (desired_over client previous "degraded" [])
                      []))))
    ⊎ (((e : Fault) × (client.client_get [] ≡ err e)
          × (is_not_found e ≡ true)
          × (apply_operator_status client "manager" (some "degraded") []
              ≡ applied client "manager" (client.apply_status "manager" "degraded" [])))
        ⊎ ((e : Fault) × IsUnknown client "manager" [] e
            × (apply_operator_status client "manager" (some "degraded") [] ≡ (some e, []))))
apply_operator_status_lem_example = apply_operator_status_lem client "manager" "degraded" []

abbrev or_missing : Option Text → Result Text
or_missing none = err (record { reason = Reason.not_found; text = "not found" })
or_missing (some r) = ok r

abbrev or_new : Option Text → Text
or_new none = resource
or_new (some r) = r

-- A server with the resource or none, which the applies make.
abbrev server : Client (Option Text) String String String String String String String
server = record {
  lister_get = or_missing;
  client_get = or_missing;
  update = λ r w. (ok r, some r);
  update_status = λ r w. (ok r, some r);
  apply = λ manager c w. (none, some (record (or_new w) { operator_spec = c }));
  apply_status = λ manager c w. (none, some (record (or_new w) { operator_status = c }));
  patch_status = λ patch w. (none, some (record (or_new w) { operator_status = patch }));
  with_spec = λ s. s;
  with_status = λ s. s;
  same_config = λ a b. a == b;
  extract = λ r manager. ok r.operator_spec;
  extract_status = λ r manager. ok (some r.operator_status);
  marshal = λ p. ok p;
  unmarshal = λ s. ok s;
  empty_status = "";
  has_conditions = λ s. true;
  set_transition_times = λ previous s w. s;
  canonicalize = λ s. s;
}

server-IsServer : IsServer server
server-IsServer = record {
  same_config_refl = λ c. (eq_iff c c).1 refl;
  extract_applied = λ manager c w w' sent.
      let there : some (record (or_new w) { operator_spec = c }) ≡ w' = ap (λ x. x.1) sent in
      (record (or_new w) { operator_spec = c }, ap or_missing (sym there), refl);
  extract_status_applied = λ manager s w w' sent.
      let there : some (record (or_new w) { operator_status = s }) ≡ w' = ap (λ x. x.1) sent in
      (record (or_new w) { operator_status = s }, ap or_missing (sym there), refl);
  canonicalize_idem = λ s. refl;
  times_kept = λ previous s w w'. refl;
  times_canonicalize = λ previous s w. refl;
  times_without = λ previous s w nothing. refl;
}

abbrev degraded : Text
degraded = record resource { operator_status = "degraded" }

degraded_applied :
    apply_operator_status server "manager" (some "degraded") none ≡ (none, some degraded)
unfolding apply_operator_status
degraded_applied = refl

apply_operator_status-again_example :
    apply_operator_status server "manager" (some "degraded") (some degraded) ≡ (none, some degraded)
apply_operator_status-again_example =
    apply_operator_status-again server server-IsServer "manager" "degraded" none (some degraded)
      degraded_applied
