-- ===== src/Observe/Sample.antt =====
-- Listers and a codec on which the observers are run.
use cluster_openshift_contro.Common.{String, [], ◌∷◌, some, none, Assoc, if◌then◌else◌, ◌==◌}
use cluster_openshift_contro.Common.Fault.{Fault, Reason, ok, err, errorf}
use cluster_openshift_contro.Cluster.{Lister}
use cluster_openshift_contro.Observe.Unstructured.Flat.{Entry, text, flag, FlatConfig, flat}
use cluster_openshift_contro.Observe.Listers.{Listers, ImageConfig}
use cluster_openshift_contro.Observe.Field.{Codec}
use cluster_openshift_contro.Observe.Unstructured.{Unstructured}

abbrev missing : Fault
missing = record { reason = Reason.not_found; text = "not found" }

abbrev no_lister {ℓ} : {A : Type ℓ} → Lister A
no_lister name = err missing

abbrev pub image : ImageConfig
image = record {
  internal_registry_hostname = "registry.svc:5000";
  external_registry_hostnames = "registry.example.org" ∷ [];
}

abbrev pub images : Assoc String
images = ("builderImage", "builder:1") ∷ []

abbrev pub listers : Listers Entry (Unit {0})
listers = record {
  image_config_lister = λ name. ok image;
  build_config_lister = no_lister;
  config_map_lister =
      λ ns name. if ns == "openshift-controller-manager-operator" then ok images else err missing;
  network_lister = no_lister;
  cluster_version_lister = no_lister;
  cluster_operator_lister = no_lister;
}

-- Values of other types are texts, and stand for themselves.
abbrev pub codec : Codec Entry String
codec = record {
  encode = λ s. ok s;
  decode_slice = λ s. err (errorf "not a slice");
  decode_map = λ s. ok ((s, text s) ∷ []);
  null = text "";
  of_bool = flag;
  of_items = λ l. text "";
  of_string_map = λ m. text "";
  of_fields = λ m. text "";
  copy_slice = λ l. none;
  copy_map = λ m. none;
}

-- Every write fails.
abbrev pub full : Unstructured Entry FlatConfig
full = record flat { set_nested_field = λ c p v. (c, some (errorf "value cannot be set")) }
