-- ===== src/Observe/Observer/Entries.antt =====
-- Observers with the paths at which they write, what they observe when they are run, and the merge.
use mathlib.Core.List.{Memᴰ, Permᴰ}
use mathlib.Core.Path.{subst}
use cluster_openshift_contro.Common.{
  String, List, [], ◌∷◌, Option, none, some, Bool, true, ◌&&◌, ◌≡◌, ◌∙◌, ◌⊎◌, all, All,
}
use cluster_openshift_contro.Common.Fault.{Fault, ok}
use cluster_openshift_contro.Observe.Unstructured.{Unstructured}
use cluster_openshift_contro.Observe.Observer.{ObserveConfigFunc}
use cluster_openshift_contro.Observe.Observer.Writes.{Absent, all_apart}

abbrev pub zip : {A B : Type 0} → List A → List B → List (A × B)
zip [] ys = []
zip (x ∷ xs) [] = []
zip (x ∷ xs) (y ∷ ys) = (x, y) ∷ zip xs ys

abbrev pub disjoint : List (List String) → List (List String) → Bool
disjoint ps qs = all (λ q. all_apart ps q) qs

abbrev pub OwnedFunc : Type 0 → Type 0
OwnedFunc Config = List (List String) × ObserveConfigFunc Config

abbrev pub disjoint_from :
    {Config : Type 0} → List (List String) → List (List (List String) × Config) → Bool
disjoint_from ps es = all (λ e. disjoint ps e.0 && disjoint e.0 ps) es

abbrev pub pairwise : {Config : Type 0} → List (List (List String) × Config) → Bool
pairwise [] = true
pairwise (e ∷ es) = disjoint_from e.0 es && pairwise es

abbrev pub add :
    {Config : Type 0}
    → Option (Option Config × List Fault)
    → Option (List Config)
    → Option (List Config)
add none cs = none
add (some (none, errors)) cs = cs
add (some (some c, errors)) none = none
add (some (some c, errors)) (some cs) = some (c ∷ cs)

-- The configurations that the observers observe, `none` if one of them panics.
abbrev pub collect : {Config : Type 0} → List (OwnedFunc Config) → Config → Option (List Config)
collect [] existing = some []
collect (e ∷ es) existing = add (e.1 existing) (collect es existing)

pub All-permᴰ {ℓ} :
    {A : Type 0} (P : A → Type ℓ) {xs ys : List A} → Permᴰ xs ys → All P xs → All P ys
All-permᴰ P Permᴰ.nil h = tt
All-permᴰ P (Permᴰ.cons e d) h = (subst P e h.0, All-permᴰ P d h.1)
All-permᴰ P (Permᴰ.swap e e') h = (subst P e' h.1.0, (subst P e h.0, h.1.1))
All-permᴰ P (Permᴰ.trans d d') h = All-permᴰ P d' (All-permᴰ P d h)

pub Memᴰ-permᴰ : {A : Type 0} {a : A} {xs ys : List A} → Permᴰ xs ys → Memᴰ a xs → Memᴰ a ys
Memᴰ-permᴰ Permᴰ.nil m = m
Memᴰ-permᴰ (Permᴰ.cons e d) (Memᴰ.head h) = Memᴰ.head (h ∙ e)
Memᴰ-permᴰ (Permᴰ.cons e d) (Memᴰ.tail m) = Memᴰ.tail (Memᴰ-permᴰ d m)
Memᴰ-permᴰ (Permᴰ.swap e e') (Memᴰ.head h) = Memᴰ.tail (Memᴰ.head (h ∙ e))
Memᴰ-permᴰ (Permᴰ.swap e e') (Memᴰ.tail (Memᴰ.head h)) = Memᴰ.head (h ∙ e')
Memᴰ-permᴰ (Permᴰ.swap e e') (Memᴰ.tail (Memᴰ.tail m)) = Memᴰ.tail (Memᴰ.tail m)
Memᴰ-permᴰ (Permᴰ.trans d d') m = Memᴰ-permᴰ d' (Memᴰ-permᴰ d m)

module _ {Json Config : Type 0} (u : Unstructured Json Config) where
  -- The merge of the observed configurations, which library-go makes: at a path at which those that
  -- have a value have the same, the result has it.
  pub record IsMerge (merge_all : List Config → Config) : Type 0 where
    pub text_merged :
        (cs : List Config) (c : Config) (q : List String) (o : Option String)
        → Memᴰ c cs
        → All (λ d. Absent u d q ⊎ (d ≡ c)) cs
        → u.nested_string c q ≡ ok o
        → u.nested_string (merge_all cs) q ≡ ok o
    pub texts_merged :
        (cs : List Config) (c : Config) (q : List String) (o : Option (List String))
        → Memᴰ c cs
        → All (λ d. Absent u d q ⊎ (d ≡ c)) cs
        → u.nested_string_slice c q ≡ ok o
        → u.nested_string_slice (merge_all cs) q ≡ ok o
