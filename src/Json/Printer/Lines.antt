-- ===== src/Json/Printer/Lines.antt =====
-- tinyjson.h: printed JSON is one line of text, with no control byte in it, and so with no NUL.
use sa.Prelude.{
  ℕ, suc, ◌≡◌, refl, Bool, true, false, [], ◌∷◌, ◌++◌, arith, leb, every, every-append,
}
use sa.Prelude.Bytes.{Bytes, c_string, is_text}
use sa.Prelude.Int.{ℤ, pos, negsuc}
use sa.Prelude.Decimal.{decimal, decimal_ℤ, is_digit, every-decimal}
use sa.Json.Value.{
  Json, null, bool, number, string, array, object, Items, no_items, item, Fields, no_fields, field,
}
use sa.Json.Number.{Doubles}
use sa.Json.Printer.{
  hex_digit, escape_byte, escape, print_string, separator, print_number, print_value, print_items,
  print_fields,
}

-- No byte below 0x20.
abbrev pub is_plain : Bytes → Bool
is_plain = every (leb 0x20)

is_plain-append : (s t : Bytes) → is_plain s ≡ true → is_plain t ≡ true → is_plain (s ++ t) ≡ true
is_plain-append s t hs ht = rw (every-append, hs, ht)

is_plain-escape_byte : (c : ℕ) → is_plain (escape_byte c) ≡ true
unfolding escape_byte hex_digit
is_plain-escape_byte c = ground arith

is_plain-escape : (s : Bytes) → is_plain (escape s) ≡ true
unfolding escape
is_plain-escape [] = refl
is_plain-escape (c ∷ s) =
    is_plain-append (escape_byte c) (escape s) (is_plain-escape_byte c) (is_plain-escape s)

-- Whatever bytes a string holds, its literal has no control byte.
pub is_plain-print_string : (s : Bytes) → is_plain (print_string s) ≡ true
unfolding print_string
is_plain-print_string s =
    is_plain-append (escape (c_string s)) (b'"' ∷ []) (is_plain-escape (c_string s)) refl

is_plain-separator : (first : Bool) → is_plain (separator first) ≡ true
is_plain-separator true = refl
is_plain-separator false = refl

is_plain_digits : (s : Bytes) → every is_digit s ≡ true → is_plain s ≡ true
is_plain_digits [] h = refl
is_plain_digits (c ∷ s) h = ground (arith, is_plain_digits s)

pub is_plain-decimal_ℤ : (z : ℤ) → is_plain (decimal_ℤ z) ≡ true
unfolding decimal_ℤ
is_plain-decimal_ℤ (pos n) = is_plain_digits (decimal n) (every-decimal n)
is_plain-decimal_ℤ (negsuc n) = is_plain_digits (decimal (suc n)) (every-decimal (suc n))

-- `%g` writes digits, signs, points and letters.
abbrev pub IsPlainG : Doubles → Type 0
IsPlainG d = (x : d.Double) → is_plain (d.format_g x) ≡ true

module _ (d : Doubles) (plain_g : IsPlainG d) where
  open d use {Double, eq, of_int, to_long}

  is_plain-print_number : (x : Double) → is_plain (print_number d x) ≡ true
  unfolding print_number
  is_plain-print_number x = ground (arith, is_plain-decimal_ℤ (to_long x), plain_g x)

  mutual
    unfolding print_value

    print_value_plain : (v : Json Double) → is_plain (print_value d v) ≡ true
    print_value_plain null = refl
    print_value_plain (bool true) = refl
    print_value_plain (bool false) = refl
    print_value_plain (number x) = is_plain-print_number x
    print_value_plain (string s) = is_plain-print_string s
    print_value_plain (array xs) =
        is_plain-append (print_items d xs true) (b']' ∷ []) (print_items_plain xs true) refl
    print_value_plain (object fs) =
        is_plain-append (print_fields d fs true) (b'}' ∷ []) (print_fields_plain fs true) refl

    print_items_plain :
        (xs : Items Double) (first : Bool) → is_plain (print_items d xs first) ≡ true
    print_items_plain no_items first = refl
    print_items_plain (item v vs) first =
        is_plain-append (separator first) _ (is_plain-separator first)
          (is_plain-append (print_value d v) _ (print_value_plain v) (print_items_plain vs false))

    print_fields_plain :
        (fs : Fields Double) (first : Bool) → is_plain (print_fields d fs first) ≡ true
    print_fields_plain no_fields first = refl
    print_fields_plain (field k v fs) first =
        is_plain-append (separator first) _ (is_plain-separator first) (
          is_plain-append (print_string k) _ (is_plain-print_string k) (
            is_plain-append (print_value d v) _ (print_value_plain v)
              (print_fields_plain fs false)))

  -- The text of any node at all is one line: no byte of it is a newline, a NUL or another control
  -- byte, where `%g` writes none.
  pub is_plain-print_value : (v : Json Double) → is_plain (print_value d v) ≡ true
  is_plain-print_value v = print_value_plain v

pub is_text-is_plain : (s : Bytes) → is_plain s ≡ true → is_text s ≡ true
is_text-is_plain [] h = refl
is_text-is_plain (c ∷ s) h = ground (arith, is_text-is_plain s)
