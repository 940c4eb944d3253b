-- ===== src/Operator/Capabilities/Checks.antt =====
-- Runs of `disable_controllers`, and its theorems at concrete inputs.
use mathlib.Core.List.Perm
use cluster_openshift_contro.Common.{
  String, List, [], ◌∷◌, ◌≡◌, refl, ◌<>◌, ◌==◌, ◌&&◌, ◌||◌, not, any, member, less_text,
}
use cluster_openshift_contro.Common.Sorting.{Ordered}
use cluster_openshift_contro.Cluster.{ClusterVersion}
use cluster_openshift_contro.Operator.Capabilities.{controller_capabilities, disable_controllers}
use cluster_openshift_contro.Operator.Capabilities.Order.{disable_controllers-perm}
use cluster_openshift_contro.Operator.Capabilities.Content.{member-disable_controllers}

abbrev no_build : ClusterVersion
no_build = record {
  known_capabilities = "Build" ∷ "ImageRegistry" ∷ [];
  enabled_capabilities = "ImageRegistry" ∷ [];
}

no_build_test :
    disable_controllers controller_capabilities no_build
    ≡ "*" ∷ "-openshift.io/build" ∷ "-openshift.io/build-config-change"
      ∷ "-openshift.io/builder-rolebindings" ∷ "-openshift.io/builder-serviceaccount"
      ∷ "-openshift.io/default-rolebindings" ∷ []
unfolding disable_controllers
no_build_test = refl

abbrev two : List (String × String)
two = ("b", "Build") ∷ ("a", "Build") ∷ []

abbrev swapped : List (String × String)
swapped = ("a", "Build") ∷ ("b", "Build") ∷ []

disable_controllers-perm_example :
    (disable_controllers two no_build ≡ disable_controllers swapped no_build)
    × Ordered less_text (disable_controllers two no_build)
disable_controllers-perm_example =
    disable_controllers-perm no_build {xs = two} {ys = swapped}
      (Perm.swap ("a", "Build") ("b", "Build") [])

member-disable_controllers_example : member "-b" (disable_controllers two no_build) ≡ (
    "*" == "-b"
    || "-openshift.io/default-rolebindings" == "-b"
    || any
        (λ entry.
          "-" <> entry.0 == "-b"
          && (member entry.1 no_build.known_capabilities
              && not (member entry.1 no_build.enabled_capabilities)))
        two)
member-disable_controllers_example = member-disable_controllers "-b" no_build two
