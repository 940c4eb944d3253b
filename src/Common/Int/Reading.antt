-- ===== src/Common/Int/Reading.antt =====
-- Decimal numbers are read back as they were written: different numbers are written differently.
use Prim.Native.Nat.{ℕ, zero, suc, ◌/◌, ◌%◌, ◌<◌, ◌+◌, ◌*◌, ◌-◌}
use Prim.Native.String.{String}
use Prim.Native.Char.{Char, code}
use mathlib.Core.Path.{◌≡◌, refl, sym, ap, ◌∙◌}
use mathlib.Core.Logic.{inl, inr}
use mathlib.Core.Bool.{false}
use native.Mathlib.Omega.{arith}
use cluster_openshift_contro.Common.Tests.{if◌then◌else◌, ltb, nat_eq, Bool-cases}
use cluster_openshift_contro.Common.Text.{◌<>◌, single_append}
use cluster_openshift_contro.Common.Int.{ℤ, pos, negsuc, digit_of, digit, digits, decimal}

-- The digits after those with the number `n`.
unfoldable pub read_digits : String → ℕ → ℕ
read_digits String.[] n = n
read_digits (String.◌∷◌ c s) n = read_digits s (n * 10 + (code c - 48))

-- the opposite of a number
abbrev negated : ℕ → ℤ
negated zero = pos 0
negated (suc n) = negsuc n

-- strconv.ParseInt(_, 10, 64) of a number that is written as decimals
unfoldable pub read_int : String → ℤ
unfolding read_digits
read_int String.[] = pos 0
read_int (String.◌∷◌ c s) =
    if nat_eq (code c) 45 then negated (read_digits s 0) else pos (read_digits (String.◌∷◌ c s) 0)

read_single :
    (c : Char) (s : String) (n : ℕ)
    → nat_eq (code c) 45 ≡ false
    → (read_digits (String.◌∷◌ c "" <> s) n ≡ read_digits s (n * 10 + (code c - 48)))
      × (read_int (String.◌∷◌ c "" <> s) ≡ pos (read_digits (String.◌∷◌ c "" <> s) 0))
unfolding read_digits read_int
read_single c s n unsigned = rw (single_append c s, unsigned) (refl, refl)

-- A digit is read as such, also at the start, where it is no sign.
read_digits-digit :
    (d : ℕ) (s : String) (n : ℕ)
    → d < 10
    → (read_digits (digit d <> s) n ≡ read_digits s (n * 10 + d))
      × (read_int (digit d <> s) ≡ pos (read_digits (digit d <> s) 0))
unfolding digit digit_of
read_digits-digit zero s n h = read_single "0" s n refl
read_digits-digit (suc zero) s n h = read_single "1" s n refl
read_digits-digit (suc (suc zero)) s n h = read_single "2" s n refl
read_digits-digit (suc (suc (suc zero))) s n h = read_single "3" s n refl
read_digits-digit (suc (suc (suc (suc zero)))) s n h = read_single "4" s n refl
read_digits-digit (suc (suc (suc (suc (suc zero))))) s n h = read_single "5" s n refl
read_digits-digit (suc (suc (suc (suc (suc (suc zero)))))) s n h = read_single "6" s n refl
read_digits-digit (suc (suc (suc (suc (suc (suc (suc zero))))))) s n h = read_single "7" s n refl
read_digits-digit (suc (suc (suc (suc (suc (suc (suc (suc zero)))))))) s n h =
    read_single "8" s n refl
read_digits-digit (suc (suc (suc (suc (suc (suc (suc (suc (suc zero))))))))) s n h =
    read_single "9" s n refl
read_digits-digit (suc (suc (suc (suc (suc (suc (suc (suc (suc (suc d)))))))))) s n h =
    absurd (omega arith)

read_digits-digits :
    (fuel n : ℕ) (s : String)
    → n < fuel
    → (read_digits (digits fuel n s) 0 ≡ read_digits s n)
      × (read_int (digits fuel n s) ≡ pos (read_digits (digits fuel n s) 0))
unfolding digits
read_digits-digits zero n s h = absurd (omega arith)
read_digits-digits (suc fuel) n s h = elim (Bool-cases (ltb n 10)) [
  | inl small ↦
      let (read, unsigned) = read_digits-digit n s 0 (ground arith) in
      rw small (read ∙ ap (read_digits s) (omega arith), unsigned)
  | inr large ↦
      let (read, unsigned) =
        read_digits-digits fuel (n / 10) (digit (n % 10) <> s) (ground arith) in
      rw large (
        read
            ∙ (read_digits-digit (n % 10) s (n / 10) (omega arith)).0
            ∙ ap (read_digits s) (omega arith),
        unsigned,
      )
]

pub read_int-decimal : (z : ℤ) → read_int (decimal z) ≡ z
unfolding read_int read_digits decimal
read_int-decimal (pos n) =
    let (read, unsigned) = read_digits-digits (suc n) n "" (omega arith) in unsigned ∙ ap pos read
read_int-decimal (negsuc n) =
    ap read_int (single_append "-" (digits (suc (suc n)) (suc n) ""))
    ∙ ap negated (read_digits-digits (suc (suc n)) (suc n) "" (omega arith)).0

pub decimal_inj : {a b : ℤ} → decimal a ≡ decimal b → a ≡ b
decimal_inj {a} {b} h = sym (read_int-decimal a) ∙ ap read_int h ∙ read_int-decimal b
