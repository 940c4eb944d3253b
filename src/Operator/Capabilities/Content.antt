-- ===== src/Operator/Capabilities/Content.antt =====
-- What the list of controllers holds.
use cluster_openshift_contro.Common.{
  String, List, [], ◌∷◌, ◌≡◌, refl, arith, ◌<>◌, ◌==◌, ◌&&◌, ◌||◌, ◌∙◌, not, any, member, less_text,
}
use cluster_openshift_contro.Common.Sorting.{insert, sort}
use cluster_openshift_contro.Cluster.{ClusterVersion}
use cluster_openshift_contro.Operator.Capabilities.{disabled_entries, disable_controllers}

member-insert :
    (s x : String) (l : List String) → member s (insert less_text x l) ≡ (x == s || member s l)
unfolding insert
member-insert s x [] = refl
member-insert s x (y ∷ ys) = ground (arith, member-insert s x ys)

member-sort : (s : String) (l : List String) → member s (sort less_text l) ≡ member s l
unfolding sort
member-sort s [] = refl
member-sort s (x ∷ xs) = member-insert s x (sort less_text xs) ∙ ground (arith, member-sort s xs)

member-disabled_entries :
    (s : String) (cv : ClusterVersion) (entries : List (String × String))
    → member s (disabled_entries cv entries)
      ≡ any
          (λ entry.
            "-" <> entry.0 == s
            && (member entry.1 cv.known_capabilities
                && not (member entry.1 cv.enabled_capabilities)))
          entries
unfolding disabled_entries
member-disabled_entries s cv [] = refl
member-disabled_entries s cv (e ∷ es) = ground (arith, member-disabled_entries s cv es)

-- A name is in the list exactly if it is "*", the disabled default role bindings, or the disabled
-- form of a controller whose capability is known to the cluster and not enabled.
pub member-disable_controllers :
    (s : String) (cv : ClusterVersion) (entries : List (String × String))
    → member s (disable_controllers entries cv) ≡ (
        "*" == s
        || "-openshift.io/default-rolebindings" == s
        || any
            (λ entry.
              "-" <> entry.0 == s
              && (member entry.1 cv.known_capabilities
                  && not (member entry.1 cv.enabled_capabilities)))
            entries)
unfolding disable_controllers
member-disable_controllers s cv entries =
    member-sort s ("*" ∷ "-openshift.io/default-rolebindings" ∷ disabled_entries cv entries)
    ∙ rw (member-disabled_entries s cv entries) (ground arith)
