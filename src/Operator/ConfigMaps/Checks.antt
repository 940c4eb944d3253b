-- ===== src/Operator/ConfigMaps/Checks.antt =====
-- Runs of the functions for the ConfigMaps, and their theorems at concrete inputs.
use cluster_openshift_contro.Common.{
  String, [], ◌∷◌, none, some, false, ◌≡◌, ◌↔◌, ◌⊎◌, refl, lookup, Assoc,
}
use cluster_openshift_contro.Common.Fault.{Fault, Reason, err, is_not_found}
use cluster_openshift_contro.Names.{target_namespace}
use cluster_openshift_contro.Operator.Types.{ConfigMap}
use cluster_openshift_contro.Operator.Sample.{World, world, api, config}
use cluster_openshift_contro.Operator.ConfigMaps.{manage_config_map, manage_service_ca}
use cluster_openshift_contro.Operator.ConfigMaps.Outcomes.{
  IsMade, IsMissing, Unique, manage_config_map_lem, manage_service_ca-none,
}

abbrev hashes : Assoc String
hashes = ("a", "1") ∷ ("b", "2") ∷ []

hashes-Unique : Unique hashes
unfolding lookup
hashes-Unique = (refl, (refl, tt))

manage_config_map_lem_example :
    ((e : Fault) × IsMissing api config (world []) e
      × (manage_config_map api config (world []) ≡ some (err e, world [])))
    ⊎ ((cm : ConfigMap) × IsMade api config (world []) cm
        × (manage_config_map api config (world []) ≡ some (api.apply_config_map cm (world []))))
manage_config_map_lem_example = manage_config_map_lem api config (world [])

abbrev timed_out : World
timed_out = world (("get config map", record { reason = Reason.other; text = "timed out" }) ∷ [])

panic_run : manage_service_ca api timed_out ≡ none
unfolding manage_service_ca lookup
panic_run = refl

manage_service_ca-none_example : (manage_service_ca api timed_out ≡ none) ↔ (
    (e : Fault) × (api.get_config_map target_namespace "openshift-service-ca" timed_out ≡ err e)
    × (is_not_found e ≡ false))
manage_service_ca-none_example = manage_service_ca-none api timed_out
