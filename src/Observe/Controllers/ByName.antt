-- ===== src/Observe/Controllers/ByName.antt =====
-- The sort of the controllers is by their names, whether or not they are marked.
use Prim.Native.Char.{Char, code}
use mathlib.Core.List.{Perm}
use cluster_openshift_contro.Common.{
  String, List, [], ◌∷◌, Bool, true, false, not, ◌≡◌, refl, arith, some, ◌<>◌, if◌then◌else◌,
  nat_eq, is_empty, any, all, map, All, ap, sym, ◌∙◌, less_text, String-set, any-perm, and_inv,
  single_append, Bool-cases, inl, inr, eq_iff,
}
use cluster_openshift_contro.Common.Sorting.{
  Strict, Strict-Ordered, Strict-NoTies, NoTies-perm, sort_unique,
}
use cluster_openshift_contro.Observe.Controllers.{less, without_dash, controllers_sort}
use cluster_openshift_contro.Observe.Controllers.Order.{less-IsOrder, controllers_sort-some}

-- A name starts with something else than the mark.
abbrev pub is_name : String → Bool
is_name String.[] = false
is_name (String.◌∷◌ c s) = not (nat_eq (code c) b'-')

-- A controller by its name, and whether it is marked as disabled.
abbrev pub write : Bool × String → String
write (disabled, name) = if disabled then "-" <> name else name

without_dash-write : (d : Bool × String) → is_name d.1 ≡ true → without_dash (write d) ≡ d.1
unfolding without_dash
without_dash-write (true, name) h = rw (single_append "-" name) refl
without_dash-write (false, String.[]) h = refl
without_dash-write (false, String.◌∷◌ c s) h = ground arith

is_empty-cons : (c : Char) (s : String) → is_empty (String.◌∷◌ c s) ≡ false
is_empty-cons c s = elim (Bool-cases (is_empty (String.◌∷◌ c s))) [
  | inl e ↦ absurd (let h = (eq_iff (String.◌∷◌ c s) "").0 e in cc)
  | inr e ↦ e
]

write-is_empty : (d : Bool × String) → is_name d.1 ≡ true → is_empty (write d) ≡ false
write-is_empty (true, name) h = rw (single_append "-" name) (is_empty-cons "-" name)
write-is_empty (false, String.[]) h = absurd (cc)
write-is_empty (false, String.◌∷◌ c s) h = is_empty-cons c s

none_empty :
    (ds : List (Bool × String))
    → all (λ d. is_name d.1) ds ≡ true
    → any is_empty (map write ds) ≡ false
none_empty [] h = refl
none_empty (d ∷ ds) h =
    let (first, rest) = and_inv (is_name d.1) (all (λ d. is_name d.1) ds) h in
    rw (write-is_empty d first) (none_empty ds rest)

-- The names are in the order of the texts, without a name twice.
abbrev pub InOrder : List (Bool × String) → Type 0
InOrder ds = Strict less_text (map (λ d. d.1) ds)

less_before :
    (d : Bool × String) (ds : List (Bool × String))
    → is_name d.1 ≡ true
    → all (λ d. is_name d.1) ds ≡ true
    → All (λ n. less_text d.1 n ≡ true) (map (λ d. d.1) ds)
    → All (λ s. less (write d) s ≡ true) (map write ds)
unfolding less
less_before d [] h k o = tt
less_before d (e ∷ ds) h k o =
    let (first, rest) = and_inv (is_name e.1) (all (λ d. is_name d.1) ds) k in
    (rw (without_dash-write d h, without_dash-write e first) (o.0), less_before d ds h rest o.1)

write-Strict :
    (ds : List (Bool × String))
    → all (λ d. is_name d.1) ds ≡ true
    → InOrder ds
    → Strict less (map write ds)
write-Strict [] h o = tt
write-Strict (d ∷ ds) h o =
    let (first, rest) = and_inv (is_name d.1) (all (λ d. is_name d.1) ds) h in
    (less_before d ds first rest o.0, write-Strict ds rest o.1)

-- The controllers are sorted by their names, marked or not: if the slice holds, in any order, these
-- controllers, whose names are different, do not start with the mark and are given in the order of
-- the texts, then the sort does not panic and leaves them in this order, each with its mark.
pub controllers_sort-write :
    (controllers : List String) (ds : List (Bool × String))
    → all (λ d. is_name d.1) ds ≡ true
    → InOrder ds
    → Perm (map write ds) controllers
    → controllers_sort controllers ≡ some (map write ds)
controllers_sort-write controllers ds named ordered p =
    let strict = write-Strict ds named ordered in
    let filled = sym (any-perm is_empty p) ∙ none_empty ds named in
    let no_ties =
      NoTies-perm less less-IsOrder p
        (Strict-NoTies less less-IsOrder String-set (map write ds) strict) in
    controllers_sort-some controllers filled
    ∙ ap some (
        sym (
          sort_unique less less-IsOrder String-set p
            (Strict-Ordered less less-IsOrder (map write ds) strict) no_ties))
