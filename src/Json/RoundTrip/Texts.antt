-- ===== src/Json/RoundTrip/Texts.antt =====
-- tinyjson.h: `cJSON_Parse` reads back what `cJSON_PrintUnformatted` wrote.
use sa.Prelude.{◌+◌, ◌*◌, ◌≡◌, some, [], append-nil, arith, length}
use sa.Prelude.Bytes.{c_string-is_text}
use sa.Json.Value.{Json}
use sa.Json.Number.{Doubles}
use sa.Json.Printer.{print_value}
use sa.Json.Printer.Lines.{IsPlainG, is_plain-print_value, is_text-is_plain}
use sa.Json.Parser.{parse_text, parse, ok}
use sa.Json.RoundTrip.Printable.{IsPrintable}
use sa.Json.RoundTrip.Values.{parse_value-print_value}

module _ (d : Doubles) (plain_g : IsPlainG d) where
  open d use {Double}

  pub parse_text-print_value :
      (v : Json Double) → IsPrintable d v → parse_text d (print_value d v) ≡ ok (v, [])
  unfolding parse_text
  parse_text-print_value v p =
      let text = print_value d v in
      let whole = parse_value-print_value d v [] (2 * length text + 1) p tt (omega arith) in
      rw (c_string-is_text text (is_text-is_plain text (is_plain-print_value d plain_g v)))
        (rw append-nil at whole)

  -- A node whose numbers are integers of at most 53 bits and whose strings hold no NUL is read back
  -- from its text as it was, where `%g` writes no control byte.
  pub parse-print_value : (v : Json Double) → IsPrintable d v → parse d (print_value d v) ≡ some v
  unfolding parse
  parse-print_value v p = rw (parse_text-print_value v p)
