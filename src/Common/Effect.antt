-- ===== src/Common/Effect.antt =====
-- Calls of the API server: an action takes the state of the cluster and returns a result with the
-- state that it leaves, also beside an error; `none` is a panic.
use mathlib.Core.Path.{◌≡◌, refl}
use mathlib.Core.Logic.{◌⊎◌, inl, inr}
use mathlib.Core.Option.{Option, none, some}
use cluster_openshift_contro.Common.Fault.{Fault, Result, ok, err}

abbrev pub Act {ℓ κ} : Type ℓ → Type κ → Type (ℓ ⊔ κ)
Act W A = W → Option (Result A × W)

abbrev pub pure {ℓ κ} : {W : Type ℓ} {A : Type κ} → A → Act W A
pure a w = some (ok a, w)

abbrev pub fail {ℓ κ} : {W : Type ℓ} {A : Type κ} → Fault → Act W A
fail e w = some (err e, w)

abbrev pub crash {ℓ κ} : {W : Type ℓ} {A : Type κ} → Act W A
crash w = none

-- A call that changes the cluster, and one that reads it.
abbrev pub call {ℓ κ} : {W : Type ℓ} {A : Type κ} → (W → Result A × W) → Act W A
call f w = some (f w)

abbrev pub read {ℓ κ} : {W : Type ℓ} {A : Type κ} → (W → Result A) → Act W A
read f w = some (f w, w)

abbrev pub lift {ℓ κ} : {W : Type ℓ} {A : Type κ} → Result A → Act W A
lift r w = some (r, w)

abbrev pub run_next {ℓ κ μ} :
    {W : Type ℓ} {A : Type κ} {B : Type μ}
    → Option (Result A × W)
    → (A → Act W B)
    → Option (Result B × W)
run_next none f = none
run_next (some (ok a, w)) f = f a w
run_next (some (err e, w)) f = some (err e, w)

infixl 5 ◌>>=◌ ◌>>◌
abbrev pub ◌>>=◌ {ℓ κ μ} :
    {W : Type ℓ} {A : Type κ} {B : Type μ} → Act W A → (A → Act W B) → Act W B
◌>>=◌ m f w = run_next (m w) f

abbrev pub ◌>>◌ {ℓ κ μ} : {W : Type ℓ} {A : Type κ} {B : Type μ} → Act W A → Act W B → Act W B
m >> n = m >>= λ _. n

abbrev pub keep_result {ℓ κ} :
    {W : Type ℓ} {A : Type κ} → Option (Result A × W) → Option (Result (Result A) × W)
keep_result none = none
keep_result (some (r, w)) = some (ok r, w)

-- The error of a call is kept as a value.
abbrev pub attempt {ℓ κ} : {W : Type ℓ} {A : Type κ} → Act W A → Act W (Result A)
attempt m w = keep_result (m w)

abbrev pub map_fault {ℓ} : {A : Type ℓ} → (Fault → Fault) → Result A → Result A
map_fault f (ok a) = ok a
map_fault f (err e) = err (f e)

module _ {ℓ κ μ} {W : Type ℓ} {A : Type κ} {B : Type μ} where
  keep_inv :
      (o : Option (Result A × W)) (f : Result A → Act W B) {r : Result B × W}
      → run_next (keep_result o) f ≡ some r
      → (x : Result A) × (v : W) × (o ≡ some (x, v)) × (f x v ≡ some r)
  keep_inv none f h = absurd (cc)
  keep_inv (some (x, v)) f h = (x, v, refl, h)

  next_inv :
      (o : Option (Result A × W)) (f : A → Act W B) {b : B} {w : W}
      → run_next o f ≡ some (ok b, w)
      → (a : A) × (v : W) × (o ≡ some (ok a, v)) × (f a v ≡ some (ok b, w))
  next_inv none f h = absurd (cc)
  next_inv (some (ok a, v)) f h = (a, v, refl, h)
  next_inv (some (err e, v)) f h = absurd (cc)

  -- A step whose error is kept as a value has run, and the rest went on with its result.
  pub attempt_inv :
      (m : Act W A) (f : Result A → Act W B) (w : W) {r : Result B × W}
      → (attempt m >>= f) w ≡ some r
      → (x : Result A) × (v : W) × (m w ≡ some (x, v)) × (f x v ≡ some r)
  attempt_inv m f w h = keep_inv (m w) f h

  -- A chain that ends well has had a first step that ended well.
  pub bind_inv :
      (m : Act W A) (f : A → Act W B) (w : W) {b : B} {w' : W}
      → (m >>= f) w ≡ some (ok b, w')
      → (a : A) × (v : W) × (m w ≡ some (ok a, v)) × (f a v ≡ some (ok b, w'))
  bind_inv m f w h = next_inv (m w) f h

pub some_ok_inj {ℓ κ} :
    {W : Type ℓ} {A : Type κ} {a a' : A} {v v' : W}
    → ◌≡◌ {A = Option (Result A × W)} (some (ok a, v)) (some (ok a', v'))
    → (a ≡ a') × (v ≡ v')
some_ok_inj h = (cc, cc)

-- A run panics, fails or succeeds.
pub run_cases {ℓ κ} :
    {W : Type ℓ} {A : Type κ} (o : Option (Result A × W))
    → (o ≡ none)
      ⊎ (((e : Fault) × (w : W) × (o ≡ some (err e, w)))
          ⊎ ((a : A) × (w : W) × (o ≡ some (ok a, w))))
run_cases none = inl refl
run_cases (some (err e, w)) = inr (inl (e, w, refl))
run_cases (some (ok a, w)) = inr (inr (a, w, refl))
