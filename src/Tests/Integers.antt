-- ===== src/Tests/Integers.antt =====
-- The doubles that are integers, to run the program with.
use sa.Prelude.{
  ℕ, zero, suc, ◌≡◌, refl, Bool, true, false, [], ◌∷◌, arith, ◌==◌, if◌then◌else◌, ==_refl, every,
}
use sa.Prelude.Bytes.{Bytes}
use sa.Prelude.Int.{ℤ, pos, negsuc}
use sa.Prelude.Decimal.{
  decimal, decimal_ℤ, is_digit, read_decimal, read_decimal-decimal, every-decimal,
}
use sa.Json.Number.{Doubles}
use sa.Json.Printer.Lines.{is_plain-decimal_ℤ, IsPlainG}

abbrev negated : ℕ → ℤ
negated zero = pos 0
negated (suc n) = negsuc n

abbrev read_integer : Bytes → ℤ
read_integer [] = pos 0
read_integer (c ∷ s) =
    if c == b'-' then negated (read_decimal 0 s) else pos (read_decimal 0 (c ∷ s))

read_integer-digits :
    (s : Bytes) → every is_digit s ≡ true → read_integer s ≡ pos (read_decimal 0 s)
unfolding read_decimal
read_integer-digits [] h = refl
read_integer-digits (c ∷ s) h = ground arith

pub read_integer-decimal_ℤ : (z : ℤ) → read_integer (decimal_ℤ z) ≡ z
unfolding decimal_ℤ
read_integer-decimal_ℤ (pos n) =
    rw (read_integer-digits (decimal n) (every-decimal n), read_decimal-decimal)
read_integer-decimal_ℤ (negsuc n) = rw read_decimal-decimal

abbrev eq_ℤ : ℤ → ℤ → Bool
eq_ℤ (pos a) (pos b) = a == b
eq_ℤ (negsuc a) (negsuc b) = a == b
eq_ℤ _ _ = false

pub eq_ℤ_refl : (z : ℤ) → eq_ℤ z z ≡ true
eq_ℤ_refl (pos n) = ==_refl n
eq_ℤ_refl (negsuc n) = ==_refl n

abbrev pub integers : Doubles
integers = record {
  Double = ℤ;
  strtod = read_integer;
  of_int = λ z. z;
  to_int = λ z. z;
  to_long = λ z. z;
  eq = eq_ℤ;
  format_g = decimal_ℤ;
  to_int-of_int = λ z h k. refl;
  to_long-of_int = λ z h. refl;
  eq-of_int = λ z h. eq_ℤ_refl z;
  strtod-decimal = λ z h. read_integer-decimal_ℤ z;
}

pub integers-IsPlainG : IsPlainG integers
integers-IsPlainG z = is_plain-decimal_ℤ z
