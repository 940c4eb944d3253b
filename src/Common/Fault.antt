-- ===== src/Common/Fault.antt =====
-- Go errors as values: what the callers distinguish of an error, its text, and results.
use Prim.Native.String.{String, ◌++◌}
use mathlib.Core.Path.{◌≡◌, refl}
use mathlib.Core.Logic.{◌⊎◌, inl, inr}
use mathlib.Core.Bool.{Bool, true, false}

-- `apierrors.IsNotFound`, the status code 409, `factory.SyntheticRequeueError`, and any other
pub data Reason : Type 0 where
  not_found conflict requeue other : Reason

pub record Fault : Type 0 where
  pub reason : Reason
  pub text : String

abbrev pub is_reason_not_found : Reason → Bool
is_reason_not_found Reason.not_found = true
is_reason_not_found _ = false

abbrev pub is_reason_conflict : Reason → Bool
is_reason_conflict Reason.conflict = true
is_reason_conflict _ = false

abbrev pub is_not_found : Fault → Bool
is_not_found e = is_reason_not_found e.reason

abbrev pub is_conflict : Fault → Bool
is_conflict e = is_reason_conflict e.reason

-- `fmt.Errorf("... %w", e)` keeps what can be asked of the error, `%v` keeps its text alone.
abbrev pub wrap : String → Fault → Fault
wrap context e = record { reason = e.reason; text = context ++ e.text }

abbrev pub errorf : String → Fault
errorf text = record { reason = Reason.other; text = text }

abbrev pub describe : String → Fault → Fault
describe context e = errorf (context ++ e.text)

pub data Result {ℓ} (A : Type ℓ) : Type ℓ where
  ok : A → Result A
  err : Fault → Result A

infixl 5 ◌>>=◌ ◌>>◌
abbrev pub ◌>>=◌ {ℓ κ} : {A : Type ℓ} {B : Type κ} → Result A → (A → Result B) → Result B
ok a >>= f = f a
err e >>= f = err e

abbrev pub ◌>>◌ {ℓ κ} : {A : Type ℓ} {B : Type κ} → Result A → Result B → Result B
m >> k = m >>= λ _. k

pub Result-cases {ℓ} :
    {A : Type ℓ} (r : Result A) → ((a : A) × (r ≡ ok a)) ⊎ ((e : Fault) × (r ≡ err e))
Result-cases (ok a) = inl (a, refl)
Result-cases (err e) = inr (e, refl)
