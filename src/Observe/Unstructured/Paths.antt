-- ===== src/Observe/Unstructured/Paths.antt =====
-- Paths into a configuration: neither of two paths is a prefix of the other.
use cluster_openshift_contro.Common.{String, List, [], ◌∷◌, ◌≡◌, Bool, true, false, ◌==◌, ◌&&◌}

abbrev pub is_prefix : List String → List String → Bool
is_prefix [] q = true
is_prefix (k ∷ ks) [] = false
is_prefix (k ∷ ks) (j ∷ js) = k == j && is_prefix ks js

abbrev pub Incomparable : List String → List String → Type 0
Incomparable p q = (is_prefix p q ≡ false) × (is_prefix q p ≡ false)
