-- ===== src/Json/RoundTrip/Strings.antt =====
-- A string literal that `cj_print_string` wrote is read back by `cj_parse_string_raw`.
use sa.Prelude.{
  ℕ, zero, suc, ◌/◌, ◌%◌, ◌≤◌, ◌<◌, ◌≡◌, refl, true, some, [], ◌∷◌, ◌++◌, append_assoc, arith,
  length, length-append, ◌≢◌,
}
use sa.Prelude.Bytes.{Bytes, is_text, c_string-is_text}
use sa.Json.Printer.{hex_digit, escape_byte, escape, print_string}
use sa.Json.Parser.{
  ok, hex_value, unicode_escape, read_chars, parse_string_raw, hex4, utf8, read_char, map_value,
}

hex_value-hex_digit : (n : ℕ) → n < 16 → hex_value (hex_digit n) ≡ some n
unfolding hex_value hex_digit
hex_value-hex_digit n h = ground arith

hex_value_zero : hex_value b'0' ≡ some 0
unfolding hex_value
hex_value_zero = refl

hex4-hex_digit :
    (c : ℕ) → c < 0x20 → hex4 b'0' b'0' (hex_digit (c / 16)) (hex_digit (c % 16)) ≡ some c
unfolding hex4
hex4-hex_digit c h =
    ground (arith, hex_value_zero, hex_value-hex_digit (c / 16), hex_value-hex_digit (c % 16))

utf8-small : (c : ℕ) → c < 0x80 → utf8 c ≡ c ∷ []
unfolding utf8
utf8-small c h = ground arith

-- The `\u00..` form of a byte below 0x20.
unicode_escape-hex :
    (c : ℕ) (s : Bytes)
    → c < 0x20
    → unicode_escape (b'0' ∷ b'0' ∷ hex_digit (c / 16) ∷ hex_digit (c % 16) ∷ s) ≡ some (c ∷ [], s)
unfolding unicode_escape
unicode_escape-hex c s h = ground (arith, hex4-hex_digit c h, utf8-small c)

read_char_plain : (c : ℕ) (rest : Bytes) → c ≢ b'\\' → read_char c rest ≡ some (c ∷ [], rest)
unfolding read_char
read_char_plain c [] h = refl
read_char_plain c (e ∷ rest) h = ground arith

-- One byte costs one round.
read_chars-escape_byte :
    (c fuel : ℕ) (rest : Bytes)
    → read_chars (suc fuel) (escape_byte c ++ rest) ≡ map_value (◌∷◌ c) (read_chars fuel rest)
unfolding read_chars escape_byte read_char
read_chars-escape_byte c fuel rest =
    ground (arith, read_char_plain c rest, unicode_escape-hex c rest)

read_chars-escape :
    (s rest : Bytes) (fuel : ℕ)
    → length s < fuel
    → read_chars fuel (escape s ++ (b'"' ∷ rest)) ≡ ok (s, rest)
unfolding escape
read_chars-escape s rest zero h = absurd (omega arith)
read_chars-escape [] rest (suc fuel) h = unfold read_chars in refl
read_chars-escape (c ∷ s) rest (suc fuel) h = rw (
  append_assoc,
  read_chars-escape_byte c fuel (escape s ++ (b'"' ∷ rest)),
  read_chars-escape s rest fuel (omega arith),
)

length-escape_byte : (c : ℕ) → 0 < length (escape_byte c)
unfolding escape_byte
length-escape_byte c = ground arith

length-escape : (s : Bytes) → length s ≤ length (escape s)
unfolding escape
length-escape [] = omega arith
length-escape (c ∷ s) =
    rw (length-append (escape_byte c) (escape s))
      (omega (arith, length-escape_byte c, length-escape s))

-- Any C string is read back from its literal, whatever stands behind it.
pub parse_string_raw-print_string :
    (s rest : Bytes) → is_text s ≡ true → parse_string_raw (print_string s ++ rest) ≡ ok (s, rest)
unfolding print_string parse_string_raw
parse_string_raw-print_string s rest h = rw (
  c_string-is_text s h,
  append_assoc,
  read_chars-escape s rest (suc (length (escape s ++ (b'"' ∷ rest))))
      (omega (arith, length-escape s, length-append (escape s) (b'"' ∷ rest))),
  c_string-is_text s h,
)
