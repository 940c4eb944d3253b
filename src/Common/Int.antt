-- ===== src/Common/Int.antt =====
-- int32 and int64 values that are compared and printed: `negsuc n` is -(n + 1).
pub mod Reading
use Prim.Native.Nat.{ℕ, zero, suc, ◌/◌, ◌%◌, ◌<◌}
use Prim.Native.String.{String}
use mathlib.Core.Path.{◌≡◌, refl}
use mathlib.Core.Logic.{◌↔◌, inl, inr}
use mathlib.Core.Bool.{Bool, true, false}
use mathlib.Core.List.{List, [], ◌∷◌}
use native.Mathlib.Omega.{arith}
use cluster_openshift_contro.Common.Tests.{if◌then◌else◌, ltb, nat_eq, Bool-cases}
use cluster_openshift_contro.Common.Text.{◌<>◌}

pub data ℤ : Type 0 where
  pos : ℕ → ℤ
  negsuc : ℕ → ℤ

abbrev pub int_eq : ℤ → ℤ → Bool
int_eq (pos m) (pos n) = nat_eq m n
int_eq (pos m) (negsuc n) = false
int_eq (negsuc m) (pos n) = false
int_eq (negsuc m) (negsuc n) = nat_eq m n

-- `x > 0`
abbrev pub positive : ℤ → Bool
positive (pos n) = ltb 0 n
positive (negsuc n) = false

-- `x < y`
abbrev pub int_less : ℤ → ℤ → Bool
int_less (pos m) (pos n) = ltb m n
int_less (pos m) (negsuc n) = false
int_less (negsuc m) (pos n) = true
int_less (negsuc m) (negsuc n) = ltb n m

pub int_eq_iff : (a b : ℤ) → (int_eq a b ≡ true) ↔ (a ≡ b)
int_eq_iff (pos m) (pos n) = ground arith
int_eq_iff (pos m) (negsuc n) = ground arith
int_eq_iff (negsuc m) (pos n) = ground arith
int_eq_iff (negsuc m) (negsuc n) = ground arith

digit_of : ℕ → List String → String
digit_of n [] = ""
digit_of zero (d ∷ ds) = d
digit_of (suc n) (d ∷ ds) = digit_of n ds

digit : ℕ → String
unfolding digit_of
digit n = digit_of n ("0" ∷ "1" ∷ "2" ∷ "3" ∷ "4" ∷ "5" ∷ "6" ∷ "7" ∷ "8" ∷ "9" ∷ [])

-- The decimal digits of `n` before `acc`, a round for each digit.
digits : ℕ → ℕ → String → String
unfolding digit
digits zero n acc = acc
digits (suc fuel) n acc =
    let more = digits fuel (n / 10) (digit (n % 10) <> acc) in
    if ltb n 10 then digit n <> acc else more

-- Fuel above the number is enough: more of it changes nothing.
digits_enough : (fuel n : ℕ) (acc : String) → n < fuel → digits (suc fuel) n acc ≡ digits fuel n acc
unfolding digits
digits_enough zero n acc h = absurd (omega arith)
digits_enough (suc fuel) n acc h = elim (Bool-cases (ltb n 10)) [
  | inl small ↦ rw small refl
  | inr large ↦ rw large (digits_enough fuel (n / 10) (digit (n % 10) <> acc) (ground arith))
]

-- `%d` and `strconv.FormatInt(_, 10)`
unfoldable pub decimal : ℤ → String
unfolding digits
decimal (pos n) = digits (suc n) n ""
decimal (negsuc n) = "-" <> digits (suc (suc n)) (suc n) ""

decimal_tests : (decimal (pos 120) ≡ "120") × (decimal (negsuc 0) ≡ "-1") × (decimal (pos 0) ≡ "0")
unfolding decimal
decimal_tests = (refl, refl, refl)
