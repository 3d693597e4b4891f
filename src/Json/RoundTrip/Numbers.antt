-- ===== src/Json/RoundTrip/Numbers.antt =====
-- The text of an integer is read back by `cj_parse_number`.
use sa.Prelude.{
  suc, ◌≤◌, ◌<◌, ◌≡◌, refl, ap, true, false, List, [], ◌∷◌, ◌++◌, arith, length, drop, every,
}
use sa.Prelude.Bytes.{Bytes}
use sa.Prelude.Int.{ℤ, pos, negsuc}
use sa.Prelude.Decimal.{
  decimal, decimal_ℤ, is_digit, every-decimal, length-decimal_pos, length-decimal,
}
use sa.Json.Value.{number}
use sa.Json.Number.{Doubles, IsExact}
use sa.Json.Printer.{print_number}
use sa.Json.Parser.{ok, is_number_byte, take_number, number_text, parse_number}

-- No number goes on into `s`.
abbrev pub Stops : Bytes → Type 0
Stops [] = Unit {0}
Stops (c ∷ s) = is_number_byte c ≡ false

take_number-append :
    (t rest : Bytes) → every is_number_byte t ≡ true → Stops rest → take_number (t ++ rest) ≡ t
unfolding take_number
take_number-append [] [] h stop = refl
take_number-append [] (c ∷ rest) h stop = ground arith
take_number-append (c ∷ t) rest h stop = ground (arith, take_number-append t rest)

every-number_byte : (t : Bytes) → every is_digit t ≡ true → every is_number_byte t ≡ true
every-number_byte [] h = refl
every-number_byte (c ∷ t) h = ground (arith, every-number_byte t)

pub drop-length {ℓ} : {A : Type ℓ} (t rest : List A) → drop (length t) (t ++ rest) ≡ rest
drop-length [] rest = refl
drop-length (c ∷ t) rest = drop-length t rest

number_text-unsigned :
    (t rest : Bytes) → every is_digit t ≡ true → Stops rest → number_text (t ++ rest) ≡ t
unfolding number_text
number_text-unsigned [] [] h stop = refl
number_text-unsigned [] (c ∷ rest) h stop = ground (arith, take_number-append [] (c ∷ rest))
number_text-unsigned (c ∷ t) rest h stop =
    ground (arith, take_number-append (c ∷ t) rest, every-number_byte (c ∷ t))

number_text-signed :
    (t rest : Bytes)
    → every is_digit t ≡ true
    → Stops rest
    → number_text (b'-' ∷ (t ++ rest)) ≡ b'-' ∷ t
unfolding number_text
number_text-signed t rest h stop =
    ap (◌∷◌ b'-') (take_number-append t rest (every-number_byte t h) stop)

-- The text of an integer is all of a number, and neither empty nor too long for the buffer.
pub number_text-decimal_ℤ :
    (z : ℤ) (rest : Bytes) → Stops rest → number_text (decimal_ℤ z ++ rest) ≡ decimal_ℤ z
unfolding decimal_ℤ
number_text-decimal_ℤ (pos n) rest stop =
    number_text-unsigned (decimal n) rest (every-decimal n) stop
number_text-decimal_ℤ (negsuc n) rest stop =
    number_text-signed (decimal (suc n)) rest (every-decimal (suc n)) stop

pub length-decimal_ℤ :
    (z : ℤ) → IsExact z → (0 < length (decimal_ℤ z)) × (length (decimal_ℤ z) ≤ 17)
unfolding decimal_ℤ
length-decimal_ℤ (pos n) h = (length-decimal_pos n, omega (arith, length-decimal n 15))
length-decimal_ℤ (negsuc n) h = (omega arith, omega (arith, length-decimal (suc n) 15))

module _ (d : Doubles) where
  open d use {of_int, to_long-of_int, eq-of_int, strtod-decimal}

  pub print_number-of_int : (z : ℤ) → IsExact z → print_number d (of_int z) ≡ decimal_ℤ z
  unfolding print_number
  print_number-of_int z h = rw (to_long-of_int z h, eq-of_int z h)

  pub parse_number-decimal_ℤ :
      (z : ℤ) (rest : Bytes)
      → IsExact z
      → Stops rest
      → parse_number d (decimal_ℤ z ++ rest) ≡ ok (number (of_int z), rest)
  unfolding parse_number
  parse_number-decimal_ℤ z rest h stop =
      rw (number_text-decimal_ℤ z rest stop, drop-length, strtod-decimal z h)
        (ground (arith, length-decimal_ℤ z))
