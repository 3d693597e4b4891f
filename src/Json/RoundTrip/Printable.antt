-- ===== src/Json/RoundTrip/Printable.antt =====
-- The values whose text can be read back, and how their texts begin and end.
use sa.Prelude.{◌<◌, ◌≡◌, refl, true, false, [], ◌∷◌, ◌++◌, arith, ◌==◌, length, every}
use sa.Prelude.Bytes.{Bytes, is_text}
use sa.Prelude.Int.{ℤ, pos, negsuc}
use sa.Prelude.Decimal.{decimal, decimal_ℤ, is_digit, every-decimal, length-decimal_pos}
use sa.Json.Value.{
  Json, null, bool, number, string, array, object, Items, no_items, item, Fields, no_fields, field,
}
use sa.Json.Number.{IsExact, Doubles}
use sa.Json.Printer.{print_string, print_value, print_items, print_fields}
use sa.Json.Parser.{is_ws, skip_ws, expect_colon, ok}
use sa.Json.RoundTrip.Numbers.{Stops, print_number-of_int}

pub skip_ws-print_string :
    (s rest : Bytes) → skip_ws (print_string s ++ rest) ≡ print_string s ++ rest
unfolding skip_ws print_string
skip_ws-print_string s rest = refl

-- The colon that the printer writes.
pub expect_colon-colon : (s : Bytes) → expect_colon (skip_ws (b':' ∷ s)) ≡ ok (tt, s)
unfolding expect_colon skip_ws
expect_colon-colon s = refl

-- A value's text begins neither with white space nor with a closing bracket.
abbrev pub Begins : Bytes → Type 0
Begins [] = ⊥
Begins (c ∷ s) = (is_ws c ≡ false) × ((c == b']') ≡ false)

pub skip_ws-Begins : (s : Bytes) → Begins s → skip_ws s ≡ s
unfolding skip_ws
skip_ws-Begins [] h = refl
skip_ws-Begins (c ∷ s) h = ground arith

pub Begins-append : (s t : Bytes) → Begins s → Begins (s ++ t)
Begins-append [] t h = absurd h
Begins-append (c ∷ s) t h = h

pub Begins-digits : (s : Bytes) → 0 < length s → every is_digit s ≡ true → Begins s
Begins-digits [] h e = absurd (omega arith)
Begins-digits (c ∷ s) h e = ground arith

pub Begins-decimal_ℤ : (z : ℤ) → Begins (decimal_ℤ z)
unfolding decimal_ℤ
Begins-decimal_ℤ (pos n) = Begins-digits (decimal n) (length-decimal_pos n) (every-decimal n)
Begins-decimal_ℤ (negsuc n) = (refl, refl)

module _ (d : Doubles) where
  open d use {Double, of_int}

  -- A number that the text holds exactly, and strings without a NUL.
  abbrev pub IsInteger : Double → Type 0
  IsInteger x = (z : ℤ) × IsExact z × (x ≡ of_int z)

  unfoldable mutual
    pub IsPrintable : Json Double → Type 0
    IsPrintable null = Unit
    IsPrintable (bool b) = Unit
    IsPrintable (number x) = IsInteger x
    IsPrintable (string s) = is_text s ≡ true
    IsPrintable (array xs) = ArePrintable xs
    IsPrintable (object fs) = FieldsArePrintable fs

    pub ArePrintable : Items Double → Type 0
    ArePrintable no_items = Unit
    ArePrintable (item v vs) = IsPrintable v × ArePrintable vs

    pub FieldsArePrintable : Fields Double → Type 0
    FieldsArePrintable no_fields = Unit
    FieldsArePrintable (field k v fs) = (is_text k ≡ true) × IsPrintable v × FieldsArePrintable fs

  pub print_value-Begins : (v : Json Double) → IsPrintable v → Begins (print_value d v)
  unfolding print_value IsPrintable print_string
  print_value-Begins null h = (refl, refl)
  print_value-Begins (bool true) h = (refl, refl)
  print_value-Begins (bool false) h = (refl, refl)
  print_value-Begins (number x) (z, exact, e) =
      rw (e, print_number-of_int d z exact) (Begins-decimal_ℤ z)
  print_value-Begins (string s) h = (refl, refl)
  print_value-Begins (array xs) h = (refl, refl)
  print_value-Begins (object fs) h = (refl, refl)

  -- What stands behind a child's text: a comma or a closing bracket.
  abbrev pub Closes : Bytes → Type 0
  Closes s = (skip_ws s ≡ s) × Stops s

  pub items-Closes :
      (vs : Items Double) (rest : Bytes) → Closes (print_items d vs false ++ (b']' ∷ rest))
  unfolding print_items skip_ws
  items-Closes no_items rest = (refl, refl)
  items-Closes (item v vs) rest = (refl, refl)

  pub fields-Closes :
      (fs : Fields Double) (rest : Bytes) → Closes (print_fields d fs false ++ (b'}' ∷ rest))
  unfolding print_fields skip_ws
  fields-Closes no_fields rest = (refl, refl)
  fields-Closes (field k v fs) rest = (refl, refl)
