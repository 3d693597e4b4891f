-- ===== src/Tests/JsonTests.antt =====
-- tinyjson.h: runs and instances.
use sa.Prelude.{◌≡◌, refl, true, arith, some, [], ◌∷◌, ◌++◌}
use sa.Prelude.Bytes.{codes, c_string}
use sa.Prelude.Int.{ℤ, negsuc}
use sa.Prelude.Decimal.{decimal, decimal_ℤ}
use sa.Json.Value.{
  Json, null, bool, number, string, array, object, no_items, item, no_fields, field,
}
use sa.Json.Printer.{escape_byte, escape, print_string, print_number, print_value}
use sa.Json.Printer.Lines.{is_plain, is_plain-print_value}
use sa.Json.Parser.{
  hex_value, hex4, utf8, unicode_escape, read_escape, read_char, read_chars, parse_string_raw,
  parse_value, parse_text, parse, ok,
}
use sa.Json.Total.{parse_text-Within}
use sa.Json.Total.Strings.{Within}
use sa.Json.RoundTrip.Printable.{IsPrintable}
use sa.Json.RoundTrip.Values.{parse_value-print_value}
use sa.Json.RoundTrip.Texts.{parse-print_value}
use sa.Tests.Integers.{integers, integers-IsPlainG}

abbrev sample : Json ℤ
sample = object (
    field (codes "name") (string (codes "a\"b\\\n")) (
      field (codes "n")
        (array (
          item (number (negsuc 6)) (item (bool true) (item null (item (array no_items) no_items)))))
        no_fields))

sample-IsPrintable : IsPrintable integers sample
unfolding IsPrintable
sample-IsPrintable = (refl, refl, (refl, ((negsuc 6, omega arith, refl), (tt, (tt, (tt, tt)))), tt))

print-sample :
    print_value integers sample ≡ codes "{\"name\":\"a\\\"b\\\\\\n\",\"n\":[-7,true,null,[]]}"
unfolding print_value print_string escape escape_byte c_string print_number decimal_ℤ decimal
print-sample = refl

-- An emoji written as a surrogate pair comes out as two three-byte sequences.
surrogates :
    parse_string_raw (codes "\"\\ud83d\\ude00\"")
    ≡ ok (0xed ∷ 0xa0 ∷ 0xbd ∷ 0xed ∷ 0xb8 ∷ 0x80 ∷ [], [])
unfolding parse_string_raw read_chars read_char read_escape unicode_escape hex4 hex_value utf8
    c_string
surrogates = refl

parse_value-print_value_example :
    parse_value integers 200 (print_value integers sample ++ codes ",") ≡ ok (sample, codes ",")
parse_value-print_value_example =
    parse_value-print_value integers sample (codes ",") 200 sample-IsPrintable refl
      (rw print-sample (omega arith))

parse-print_value_example : parse integers (print_value integers sample) ≡ some sample
parse-print_value_example = parse-print_value integers integers-IsPlainG sample sample-IsPrintable

parse_text-Within_example : Within 6 (parse_text integers (codes "[[1,2}"))
unfolding c_string
parse_text-Within_example = parse_text-Within integers (codes "[[1,2}")

is_plain-print_value_example : is_plain (print_value integers sample) ≡ true
is_plain-print_value_example = is_plain-print_value integers integers-IsPlainG sample
