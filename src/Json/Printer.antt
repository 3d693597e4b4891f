-- ===== src/Json/Printer.antt =====
-- tinyjson.h: the serializer. What the functions append to their `cj_buf` is what they return here.
pub mod Lines
use sa.Prelude.{ℕ, ◌+◌, ◌-◌, ◌/◌, ◌%◌, Bool, true, false, [], ◌∷◌, ◌++◌, ltb, ◌==◌, if◌then◌else◌}
use sa.Prelude.Bytes.{Bytes, codes, c_string}
use sa.Prelude.Decimal.{decimal_ℤ}
use sa.Json.Value.{
  Json, Items, Fields, null, bool, number, string, array, object, no_items, item, no_fields, field,
}
use sa.Json.Number.{Doubles}

-- A digit of `%x`.
unfoldable pub hex_digit : ℕ → ℕ
hex_digit n = if ltb n 10 then n + b'0' else n - 10 + b'a'

abbrev backslashed : ℕ → Bytes
backslashed c = b'\\' ∷ c ∷ []

-- The `switch` for one byte; `\u%04x` of a byte below 0x20 has two zeros in front.
unfoldable pub escape_byte : ℕ → Bytes
escape_byte c =
    if c == b'"'
    then backslashed b'"'
    else if c == b'\\'
    then backslashed b'\\'
    else if c == 8
    then backslashed b'b'
    else if c == 12
    then backslashed b'f'
    else if c == 10
    then backslashed b'n'
    else if c == 13
    then backslashed b'r'
    else if c == 9
    then backslashed b't'
    else if ltb c 0x20
    then b'\\' ∷ b'u' ∷ b'0' ∷ b'0' ∷ hex_digit (c / 16) ∷ hex_digit (c % 16) ∷ []
    else c ∷ []

unfoldable pub escape : Bytes → Bytes
escape [] = []
escape (c ∷ s) = escape_byte c ++ escape s

-- `cj_print_string`: the loop stops at the NUL that ends the C string.
unfoldable pub print_string : Bytes → Bytes
unfolding escape
print_string s = b'"' ∷ (escape (c_string s) ++ b'"' ∷ [])

abbrev pub separator : Bool → Bytes
separator first = if first then [] else b',' ∷ []

module _ (d : Doubles) where
  open d use {Double, of_int, to_long, eq, format_g}

  unfoldable pub print_number : Double → Bytes
  print_number x = if eq x (of_int (to_long x)) then decimal_ℤ (to_long x) else format_g x

  -- `cj_print_value`, `cj_print_array` and `cj_print_object`; the flag is `first`.
  unfoldable mutual
    pub print_value : Json Double → Bytes
    print_value null = codes "null"
    print_value (bool true) = codes "true"
    print_value (bool false) = codes "false"
    print_value (number x) = print_number x
    print_value (string s) = print_string s
    print_value (array xs) = b'[' ∷ (print_items xs true ++ b']' ∷ [])
    print_value (object fs) = b'{' ∷ (print_fields fs true ++ b'}' ∷ [])

    pub print_items : Items Double → Bool → Bytes
    print_items no_items first = []
    print_items (item v vs) first = separator first ++ (print_value v ++ print_items vs false)

    pub print_fields : Fields Double → Bool → Bytes
    print_fields no_fields first = []
    print_fields (field k v fs) first =
        separator first ++ (print_string k ++ (b':' ∷ (print_value v ++ print_fields fs false)))
