-- ===== src/Operator/Capabilities/Order.antt =====
-- The order in which Go visits the map does not show in the list.
use mathlib.Core.Logic.{∥∥₁_elim}
use mathlib.Core.List.{Perm, Permᴰ, Perm-prop}
use mathlib.Core.List.Perm
use cluster_openshift_contro.Common.{
  String, List, ◌∷◌, Bool, true, false, ◌≡◌, ◌<>◌, if◌then◌else◌, less_text, less_text_total,
  String-set,
}
use cluster_openshift_contro.Common.Sorting.{Ordered, sort-perm_eq, sort-Ordered, less_text-IsOrder}
use cluster_openshift_contro.Cluster.{ClusterVersion}
use cluster_openshift_contro.Operator.Capabilities.{
  capability_off, disabled_entries, disable_controllers,
}

abbrev keep : Bool → String → List String → List String
keep t x l = if t then x ∷ l else l

keep-perm : (t : Bool) (x : String) {l m : List String} → Perm l m → Perm (keep t x l) (keep t x m)
keep-perm true x p = Perm.cons x p
keep-perm false x p = p

keep_swap :
    (s t : Bool) (x y : String) (l : List String)
    → Perm (keep s x (keep t y l)) (keep t y (keep s x l))
keep_swap true true x y l = Perm.swap y x l
keep_swap true false x y l = Perm.rfl
keep_swap false true x y l = Perm.rfl
keep_swap false false x y l = Perm.rfl

module _ (cv : ClusterVersion) where
  disabled_entries-permᴰ :
      {xs ys : List (String × String)}
      → Permᴰ xs ys
      → Perm (disabled_entries cv xs) (disabled_entries cv ys)
  unfolding disabled_entries
  disabled_entries-permᴰ Permᴰ.nil = Perm.rfl
  disabled_entries-permᴰ (Permᴰ.cons {a} {b} {l₁} {l₂} e p) =
      rw e (keep-perm (capability_off cv b.1) ("-" <> b.0) (disabled_entries-permᴰ p))
  disabled_entries-permᴰ (Permᴰ.swap {a} {b} {a'} {b'} {l} e f) =
      rw (e, f)
        (keep_swap (capability_off cv b'.1) (capability_off cv a'.1) ("-" <> b'.0) ("-" <> a'.0)
          (disabled_entries cv l))
  disabled_entries-permᴰ (Permᴰ.trans p q) =
      Perm.trans (disabled_entries-permᴰ p) (disabled_entries-permᴰ q)

-- Whatever the order in which the map is visited, the list of controllers is the same, and it is
-- in the order of `sort.Strings`.
pub disable_controllers-perm :
    (cv : ClusterVersion) {xs ys : List (String × String)}
    → Perm xs ys
    → (disable_controllers xs cv ≡ disable_controllers ys cv)
      × Ordered less_text (disable_controllers xs cv)
unfolding disable_controllers
disable_controllers-perm cv {xs} {ys} p = (
  sort-perm_eq less_text less_text-IsOrder String-set
      (Perm.cons "*" (
        Perm.cons "-openshift.io/default-rolebindings"
          (∥∥₁_elim p Perm-prop (disabled_entries-permᴰ cv))))
      (λ x y mx my a b. less_text_total x y a b),
  sort-Ordered less_text less_text-IsOrder
      ("*" ∷ "-openshift.io/default-rolebindings" ∷ disabled_entries cv xs),
)
