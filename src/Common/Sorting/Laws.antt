-- ===== src/Common/Sorting/Laws.antt =====
-- The sorted arrangement is a permutation in order, and it is the only one where ties are equal.
use mathlib.Core.Path.{◌≡◌, refl, sym, ◌∙◌}
use mathlib.Core.Bool.{Bool, true, false}
use mathlib.Core.Logic.{inl, inr, ∥∥₁_elim}
use mathlib.Core.List.{List, [], ◌∷◌, Mem, Memᴰ, Perm, Permᴰ, mem-cons_self, mem-cons_of_mem}
use mathlib.Core.List.Perm
use native.Mathlib.Omega.{arith}
use cluster_openshift_contro.Common.Tests.{All, Bool-cases}
use cluster_openshift_contro.Common.Sorting.Defs.{insert, sort}

-- `less` is a strict weak order.
pub record IsOrder {ℓ} {A : Type ℓ} (less : A → A → Bool) : Type ℓ where
  pub irrefl : (x : A) → less x x ≡ false
  pub asym : (x y : A) → less x y ≡ true → less y x ≡ false
  pub neg_trans : (x y z : A) → less y x ≡ false → less z y ≡ false → less z x ≡ false

List-set {ℓ} : {A : Type ℓ} → IsSet A → IsSet (List A)
List-set set = hlevel set

module _ {ℓ} {A : Type ℓ} (less : A → A → Bool) where
  -- No later element is less than an earlier one.
  abbrev pub Ordered : List A → Type ℓ
  Ordered [] = Unit
  Ordered (x ∷ xs) = All (λ y. less y x ≡ false) xs × Ordered xs

  -- Each earlier element is less than each later one.
  abbrev pub Strict : List A → Type ℓ
  Strict [] = Unit
  Strict (x ∷ xs) = All (λ y. less x y ≡ true) xs × Strict xs

  All-memᴰ {κ} : (P : A → Type κ) {x : A} {xs : List A} → Memᴰ x xs → All P xs → P x
  All-memᴰ P (Memᴰ.head e) (h, t) = rw e h
  All-memᴰ P (Memᴰ.tail m) (h, t) = All-memᴰ P m t

  Strict-tieᴰ :
      {x y : A} {xs : List A}
      → Strict xs
      → Memᴰ x xs
      → Memᴰ y xs
      → less x y ≡ false
      → less y x ≡ false
      → x ≡ y
  Strict-tieᴰ s (Memᴰ.head e) (Memᴰ.head f) a b = e ∙ sym f
  Strict-tieᴰ s (Memᴰ.head {x = z} e) (Memᴰ.tail m) a b =
      let k = All-memᴰ (λ w. less z w ≡ true) m s.0 in absurd (ground (arith, e))
  Strict-tieᴰ s (Memᴰ.tail m) (Memᴰ.head {x = z} e) a b =
      let k = All-memᴰ (λ w. less z w ≡ true) m s.0 in absurd (ground (arith, e))
  Strict-tieᴰ s (Memᴰ.tail m) (Memᴰ.tail n) a b = Strict-tieᴰ s.1 m n a b

  insert-perm : (x : A) (xs : List A) → Perm (insert less x xs) (x ∷ xs)
  unfolding insert
  insert-perm x [] = Perm.rfl
  insert-perm x (y ∷ ys) = elim (Bool-cases (less y x)) [
    | inl e ↦ rw e (Perm.trans (Perm.cons y (insert-perm x ys)) (Perm.swap x y ys))
    | inr e ↦ rw e Perm.rfl
  ]

  pub sort-perm : (xs : List A) → Perm (sort less xs) xs
  unfolding sort
  sort-perm [] = Perm.rfl
  sort-perm (x ∷ xs) = Perm.trans (insert-perm x (sort less xs)) (Perm.cons x (sort-perm xs))

  All-insert {κ} :
      (P : A → Type κ) (x : A) (xs : List A) → P x → All P xs → All P (insert less x xs)
  unfolding insert
  All-insert P x [] p h = (p, tt)
  All-insert P x (y ∷ ys) p h = elim (Bool-cases (less y x)) [
    | inl e ↦ rw e (h.0, All-insert P x ys p h.1)
    | inr e ↦ rw e (p, h)
  ]

  pub All-sort {κ} : (P : A → Type κ) (xs : List A) → All P xs → All P (sort less xs)
  unfolding sort
  All-sort P [] h = tt
  All-sort P (x ∷ xs) h = All-insert P x (sort less xs) h.0 (All-sort P xs h.1)

  module _ (order : IsOrder less) where
    open order use {irrefl, asym, neg_trans}

    All-not_less :
        (x y : A) (ys : List A)
        → less y x ≡ false
        → All (λ z. less z y ≡ false) ys
        → All (λ z. less z x ≡ false) ys
    All-not_less x y [] e h = tt
    All-not_less x y (z ∷ zs) e h = (neg_trans x y z e h.0, All-not_less x y zs e h.1)

    insert-Ordered : (x : A) (xs : List A) → Ordered xs → Ordered (insert less x xs)
    unfolding insert
    insert-Ordered x [] h = (tt, tt)
    insert-Ordered x (y ∷ ys) h = elim (Bool-cases (less y x)) [
      | inl e ↦
          rw e (All-insert (λ z. less z y ≡ false) x ys (asym y x e) h.0, insert-Ordered x ys h.1)
      | inr e ↦ rw e ((e, All-not_less x y ys e h.0), h)
    ]

    pub sort-Ordered : (xs : List A) → Ordered (sort less xs)
    unfolding sort
    sort-Ordered [] = tt
    sort-Ordered (x ∷ xs) = insert-Ordered x (sort less xs) (sort-Ordered xs)

    insert_comm :
        (x y : A) (l : List A)
        → (less x y ≡ false → less y x ≡ false → x ≡ y)
        → insert less x (insert less y l) ≡ insert less y (insert less x l)
    unfolding insert
    insert_comm x y [] tie = ground (arith, asym x y, asym y x)
    insert_comm x y (z ∷ zs) tie = ground (
      arith,
      asym x y,
      asym y x,
      asym z x,
      asym z y,
      asym x z,
      asym y z,
      neg_trans x y z,
      neg_trans y x z,
      insert_comm x y zs tie,
    )

    -- Ties among the elements are equal.
    abbrev pub NoTies : List A → Type ℓ
    NoTies xs = (x y : A) → Mem x xs → Mem y xs → less x y ≡ false → less y x ≡ false → x ≡ y

    pub Strict-NoTies : IsSet A → (xs : List A) → Strict xs → NoTies xs
    Strict-NoTies set xs s x y mx my a b =
        ∥∥₁_elim mx (set x y) (λ dx. ∥∥₁_elim my (set x y) (λ dy. Strict-tieᴰ s dx dy a b))

    All-asym :
        (x : A) (xs : List A) → All (λ y. less x y ≡ true) xs → All (λ y. less y x ≡ false) xs
    All-asym x [] h = tt
    All-asym x (y ∷ ys) (h, t) = (asym x y h, All-asym x ys t)

    pub Strict-Ordered : (xs : List A) → Strict xs → Ordered xs
    Strict-Ordered [] s = tt
    Strict-Ordered (x ∷ xs) (h, t) = (All-asym x xs h, Strict-Ordered xs t)

    NoTies-tail : (x : A) (xs : List A) → NoTies (x ∷ xs) → NoTies xs
    NoTies-tail x xs h a b ma mb = h a b (mem-cons_of_mem x ma) (mem-cons_of_mem x mb)

    pub NoTies-perm : {xs ys : List A} → Perm xs ys → NoTies xs → NoTies ys
    NoTies-perm p h a b ma mb =
        h a b (Perm.subset (Perm.symm p) a ma) (Perm.subset (Perm.symm p) b mb)

    sort_permᴰ : {xs ys : List A} → Permᴰ xs ys → NoTies xs → sort less xs ≡ sort less ys
    unfolding sort
    sort_permᴰ Permᴰ.nil h = refl
    sort_permᴰ (Permᴰ.cons {a} {b} {l₁} {l₂} e p) h = cc (sort_permᴰ p (NoTies-tail a l₁ h))
    sort_permᴰ (Permᴰ.swap {a} {b} {a'} {b'} {l} e f) h =
        insert_comm a b (sort less l) (h a b mem-cons_self (mem-cons_of_mem a mem-cons_self)) ∙ cc
    sort_permᴰ (Permᴰ.trans p q) h = sort_permᴰ p h ∙ sort_permᴰ q (NoTies-perm ∣ p ∣₁ h)

    -- The arrangement does not depend on the order in which the elements are given.
    pub sort-perm_eq :
        IsSet A → {xs ys : List A} → Perm xs ys → NoTies xs → sort less xs ≡ sort less ys
    sort-perm_eq set p h = ∥∥₁_elim p (List-set set _ _) (λ d. sort_permᴰ d h)

    insert-least :
        (x : A) (xs : List A) → All (λ y. less y x ≡ false) xs → insert less x xs ≡ x ∷ xs
    unfolding insert
    insert-least x [] h = refl
    insert-least x (y ∷ ys) h = rw (h.0)

    sort_of_Ordered : (xs : List A) → Ordered xs → sort less xs ≡ xs
    unfolding sort
    sort_of_Ordered [] h = refl
    sort_of_Ordered (x ∷ xs) h = rw (sort_of_Ordered xs h.1) (insert-least x xs h.0)

    -- Every ordered permutation is that arrangement, whatever algorithm computed it.
    pub sort_unique :
        IsSet A → {xs ys : List A} → Perm ys xs → Ordered ys → NoTies xs → ys ≡ sort less xs
    sort_unique set {xs} {ys} p o h =
        sym (sort_of_Ordered ys o) ∙ sym (sort-perm_eq set (Perm.symm p) h)
