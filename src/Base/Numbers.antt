-- ===== src/Base/Numbers.antt =====
-- strconv.ParseInt in base 10 for 64 bits.
use Prim.Native.Nat.{ℕ, zero, suc, ◌<◌, ◌/◌, ◌%◌, ◌+◌, ◌-◌, ◌*◌, ◌^◌}
use Prim.Native.Char.{Char, code}
use Prim.Native.String.{String}
use native.Mathlib.Omega.{arith}
use mathlib.Core.Path.{◌≡◌, refl, ◌∙◌, ap}
use mathlib.Core.Logic.{inl, inr}
use mathlib.Core.Option.{Option, none, some}
use server_monitor.Base.Tests.{Bool-cases, ltb→lt, ltb, eqb, if◌then◌else◌}
use server_monitor.Base.Int.{ℤ, pos, negsuc, ◌-ℤ◌}
use server_monitor.Base.Text.{is_digit}

unfoldable pub digits : ℕ → String → Option ℕ
unfolding is_digit
digits seen String.[] = some seen
digits seen (String.◌∷◌ c s) =
    let rest = digits (seen * 10 + (code c - b'0')) s in if is_digit (code c) then rest else none

-- One digit at least.
unfoldable pub parse_digits : String → Option ℕ
unfolding digits
parse_digits String.[] = none
parse_digits (String.◌∷◌ c s) = digits 0 (String.◌∷◌ c s)

in_range : ℕ → Option ℕ → Option ℕ
in_range bound none = none
in_range bound (some n) = if ltb bound n then none else some n

negated : Option ℕ → Option ℤ
negated none = none
negated (some n) = some (pos 0 -ℤ pos n)

positive : Option ℕ → Option ℤ
positive none = none
positive (some n) = some (pos n)

-- `none` is a syntax or range error
unfoldable pub parse_int : String → Option ℤ
unfolding in_range negated positive parse_digits ◌-ℤ◌
parse_int String.[] = none
parse_int (String.◌∷◌ c s) =
    if eqb (code c) b'-'
    then negated (in_range (2 ^ 63) (parse_digits s))
    else if eqb (code c) b'+'
    then positive (in_range (2 ^ 63 - 1) (parse_digits s))
    else positive (in_range (2 ^ 63 - 1) (parse_digits (String.◌∷◌ c s)))

reads : parse_int "-12" ≡ some (negsuc 11)
unfolding parse_int ◌-ℤ◌
reads = refl

overflows : parse_int "9223372036854775808" ≡ none
unfolding parse_int ◌-ℤ◌
overflows = refl

-- strconv.ParseUint in base 10 for 64 bits.
unfoldable pub parse_uint : String → Option ℕ
unfolding in_range parse_digits
parse_uint s = in_range (2 ^ 64 - 1) (parse_digits s)

abbrev nth_char : ℕ → String → Char
nth_char n String.[] = "?"
nth_char zero (String.◌∷◌ c s) = c
nth_char (suc n) (String.◌∷◌ c s) = nth_char n s

abbrev digit_char : ℕ → Char
digit_char n = nth_char n "0123456789"

-- The digits of a number with at most `fuel` digits, before the text `rest`.
digits_before : ℕ → ℕ → String → String
digits_before zero n rest = rest
digits_before (suc fuel) n rest =
    let longer = digits_before fuel (n / 10) (String.◌∷◌ (digit_char (n % 10)) rest) in
    if ltb n 10 then String.◌∷◌ (digit_char n) rest else longer

-- strconv.FormatUint in base 10. A number below 2 ^ 64 has at most 20 digits.
unfoldable pub format_uint : ℕ → String
unfolding digits_before
format_uint n = digits_before 20 n ""

digit_code : (n : ℕ) → n < 10 → code (digit_char n) ≡ 48 + n
digit_code zero h = refl
digit_code (suc zero) h = refl
digit_code (suc (suc zero)) h = refl
digit_code (suc (suc (suc zero))) h = refl
digit_code (suc (suc (suc (suc zero)))) h = refl
digit_code (suc (suc (suc (suc (suc zero))))) h = refl
digit_code (suc (suc (suc (suc (suc (suc zero)))))) h = refl
digit_code (suc (suc (suc (suc (suc (suc (suc zero))))))) h = refl
digit_code (suc (suc (suc (suc (suc (suc (suc (suc zero)))))))) h = refl
digit_code (suc (suc (suc (suc (suc (suc (suc (suc (suc zero))))))))) h = refl
digit_code (suc (suc (suc (suc (suc (suc (suc (suc (suc (suc n)))))))))) h = absurd (omega arith)

digits-digit :
    (seen n : ℕ) (rest : String)
    → n < 10
    → digits seen (String.◌∷◌ (digit_char n) rest) ≡ digits (seen * 10 + n) rest
unfolding digits is_digit
digits-digit seen n rest h = ground (arith, digit_code n h)

power_step : (fuel n : ℕ) → n < 10 ^ suc fuel → n / 10 < 10 ^ fuel
power_step fuel n h = omega (arith, h)

digits-digits_before :
    (fuel n : ℕ) (rest : String)
    → n < 10 ^ fuel
    → digits 0 (digits_before fuel n rest) ≡ digits n rest
unfolding digits_before
digits-digits_before zero zero rest h = refl
digits-digits_before zero (suc n) rest h = absurd (omega (arith, h))
digits-digits_before (suc fuel) n rest h = elim (Bool-cases (ltb n 10)) [
  | inl small ↦
      rw small (digits-digit 0 n rest (ltb→lt n 10 small) ∙ ap (λ k. digits k rest) (omega arith))
  | inr large ↦ rw large (
      digits-digits_before fuel (n / 10) (String.◌∷◌ (digit_char (n % 10)) rest)
        (power_step fuel n h)
      ∙ digits-digit (n / 10) (n % 10) rest (omega arith)
      ∙ ap (λ k. digits k rest) (omega arith))
]

digits_before-nonempty :
    (fuel n : ℕ) (c : Char) (rest : String)
    → parse_digits (digits_before fuel n (String.◌∷◌ c rest))
      ≡ digits 0 (digits_before fuel n (String.◌∷◌ c rest))
unfolding digits_before parse_digits
digits_before-nonempty zero n c rest = refl
digits_before-nonempty (suc fuel) n c rest = elim (Bool-cases (ltb n 10)) [
  | inl small ↦ rw (small, parse_digits) refl
  | inr large ↦ rw large (digits_before-nonempty fuel (n / 10) _ _)
]

parse_digits-format_uint : (n : ℕ) → parse_digits (format_uint n) ≡ digits 0 (format_uint n)
unfolding format_uint digits_before parse_digits
parse_digits-format_uint n = elim (Bool-cases (ltb n 10)) [
  | inl small ↦ rw (small, parse_digits) refl
  | inr large ↦ rw large (digits_before-nonempty 19 (n / 10) _ _)
]

-- Reading the digits of a number below 2 ^ 64 gives the number.
pub parse_uint-format_uint : (n : ℕ) → n < 2 ^ 64 → parse_uint (format_uint n) ≡ some n
unfolding parse_uint format_uint in_range digits
parse_uint-format_uint n h =
    let r : parse_digits (format_uint n) ≡ some n =
      parse_digits-format_uint n ∙ digits-digits_before 20 n "" (omega (arith, h)) in
    rw r (ground arith)
