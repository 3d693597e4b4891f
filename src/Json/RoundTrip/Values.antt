-- ===== src/Json/RoundTrip/Values.antt =====
-- Every printable value is read back from its text.
use sa.Prelude.{
  ℕ, zero, suc, ◌*◌, ◌<◌, ◌≡◌, refl, Bool, true, false, ◌∷◌, ◌++◌, arith, length, length-append,
}
use sa.Prelude.Bytes.{Bytes, is_text}
use sa.Prelude.Decimal.{decimal_ℤ}
use sa.Json.Value.{
  Json, null, bool, number, string, array, object, Items, no_items, item, Fields, no_fields, field,
}
use sa.Json.Number.{Doubles}
use sa.Json.Printer.{print_string, print_value, print_items, print_fields}
use sa.Json.Parser.{
  skip_ws, parse_string, after_element, after_member, parse_value, parse_elements, parse_members,
  ok,
}
use sa.Json.RoundTrip.Strings.{parse_string_raw-print_string}
use sa.Json.RoundTrip.Numbers.{Stops, print_number-of_int, parse_number-decimal_ℤ}
use sa.Json.RoundTrip.Printable.{
  skip_ws-print_string, expect_colon-colon, skip_ws-Begins, Begins-append, Begins-decimal_ℤ,
  IsInteger, IsPrintable, ArePrintable, FieldsArePrintable, print_value-Begins, items-Closes,
  fields-Closes,
}
use sa.Json.RoundTrip.Rounds.{
  parse_value_lem, parse_elements_lem, parse_members_lem, print_value_number, print_value_string,
  parse_literals, parse_at-number, parse_at-print_string, array_from-Begins, array_fuel, items_fuel,
  object_fuel, fields_fuel, after_element_comma, after_member_comma, print_value_array,
  print_value_object, print_items_item, print_fields_field, parse_value_array, parse_value_object,
}

module _ (d : Doubles) where
  open d use {Double, of_int}

  -- With enough fuel the parser reads `v` off its text, whatever stands behind it.
  abbrev ReadsValue : Json Double → Type 0
  ReadsValue v =
      (rest : Bytes) (fuel : ℕ)
      → 2 * length (print_value d v) < fuel
      → Stops rest
      → parse_value d fuel (print_value d v ++ rest) ≡ ok (v, rest)

  -- Behind an element `w`, the other elements and the closing bracket are read.
  abbrev ReadsRest : Items Double → Type 0
  ReadsRest vs =
      (w : Json Double) (rest : Bytes) (fuel : ℕ)
      → 2 * length (print_items d vs false) < fuel
      → after_element d (parse_elements d fuel) w (print_items d vs false ++ (b']' ∷ rest))
        ≡ ok (item w vs, rest)

  abbrev ReadsMembers : Fields Double → Type 0
  ReadsMembers fs =
      (k : Bytes) (w : Json Double) (rest : Bytes) (fuel : ℕ)
      → 2 * length (print_fields d fs false) < fuel
      → after_member d (parse_members d fuel) k w (print_fields d fs false ++ (b'}' ∷ rest))
        ≡ ok (field k w fs, rest)

  parse_elements-item :
      (v : Json Double) (vs : Items Double) (rest : Bytes) (fuel : ℕ)
      → IsPrintable d v
      → ReadsValue v
      → ReadsRest vs
      → 2 * length (print_value d v ++ print_items d vs false) < fuel
      → parse_elements d (suc fuel) (print_value d v ++ (print_items d vs false ++ (b']' ∷ rest)))
        ≡ ok (item v vs, rest)
  parse_elements-item v vs rest fuel p hv hvs h =
      let tail = print_items d vs false ++ (b']' ∷ rest) in
      let closes = items-Closes d vs rest in
      let sizes = length-append (print_value d v) (print_items d vs false) in
      rw
        (
          parse_elements_lem,
          skip_ws-Begins _ (Begins-append (print_value d v) tail (print_value-Begins d v p)),
          hv tail fuel (omega (arith, sizes)) closes.1,
          closes.0,
        )
        (hvs v rest fuel (omega (arith, sizes)))

  parse_members-field :
      (k : Bytes) (v : Json Double) (fs : Fields Double) (rest : Bytes) (fuel : ℕ)
      → is_text k ≡ true
      → IsPrintable d v
      → ReadsValue v
      → ReadsMembers fs
      → 2 * length (print_value d v ++ print_fields d fs false) < fuel
      → parse_members d (suc fuel) (
          print_string k
          ++ (b':' ∷ (print_value d v ++ (print_fields d fs false ++ (b'}' ∷ rest)))))
        ≡ ok (field k v fs, rest)
  parse_members-field k v fs rest fuel t p hv hfs h =
      let tail = print_fields d fs false ++ (b'}' ∷ rest) in
      let closes = fields-Closes d fs rest in
      let sizes = length-append (print_value d v) (print_fields d fs false) in
      rw
        (
          parse_members_lem,
          skip_ws-print_string,
          parse_string_raw-print_string k _ t,
          expect_colon-colon,
          skip_ws-Begins _ (Begins-append (print_value d v) tail (print_value-Begins d v p)),
          hv tail fuel (omega (arith, sizes)) closes.1,
          closes.0,
        )
        (hfs k v rest fuel (omega (arith, sizes)))

  -- The cases of the induction, each at fuel above its bound.
  number_Reads : (x : Double) → IsInteger d x → ReadsValue (number x)
  number_Reads x h rest zero enough stop = absurd (omega arith)
  number_Reads x (z, exact, e) rest (suc fuel) enough stop = rw (
    e,
    print_value_number,
    print_number-of_int d z exact,
    parse_value_lem,
    skip_ws-Begins _ (Begins-append (decimal_ℤ z) rest (Begins-decimal_ℤ z)),
    parse_at-number,
    parse_number-decimal_ℤ d z rest exact stop,
  )

  string_Reads : (s : Bytes) → is_text s ≡ true → ReadsValue (string s)
  string_Reads s h rest zero enough stop = absurd (omega arith)
  string_Reads s h rest (suc fuel) enough stop =
      rw (print_value_string, parse_value_lem, skip_ws-print_string, parse_at-print_string)
        (unfold parse_string in rw (parse_string_raw-print_string s rest h))

  null_Reads : ReadsValue null
  null_Reads rest zero enough stop = absurd (omega arith)
  null_Reads rest (suc fuel) enough stop = unfold print_value in (parse_literals d rest fuel).0

  bool_Reads : (b : Bool) → ReadsValue (bool b)
  bool_Reads b rest zero enough stop = absurd (omega arith)
  bool_Reads true rest (suc fuel) enough stop = unfold print_value in (parse_literals d rest fuel).1
  bool_Reads false rest (suc fuel) enough stop =
      unfold print_value in (parse_literals d rest fuel).2

  no_items_Read : ReadsRest no_items
  no_items_Read w rest fuel enough = unfold print_items after_element in refl

  no_fields_Read : ReadsMembers no_fields
  no_fields_Read k w rest fuel enough = unfold print_fields after_member in refl

  array_Reads :
      (v : Json Double) (vs : Items Double)
      → IsPrintable d v
      → ReadsValue v
      → ReadsRest vs
      → ReadsValue (array (item v vs))
  array_Reads v vs p hv hvs rest zero enough stop = absurd (omega arith)
  array_Reads v vs p hv hvs rest (suc zero) enough stop = absurd (unfold print_value in omega arith)
  array_Reads v vs p hv hvs rest (suc (suc fuel)) enough stop =
      let tail = print_items d vs false ++ (b']' ∷ rest) in
      let begins = Begins-append (print_value d v) tail (print_value-Begins d v p) in
      let enough' : 2 * length (print_value d v ++ print_items d vs false) < fuel =
        array_fuel d v vs fuel enough in
      rw (
        print_value_array,
        parse_value_array,
        skip_ws-Begins _ begins,
        array_from-Begins d _ _ begins,
        parse_elements-item v vs rest fuel p hv hvs enough',
      )

  object_Reads :
      (k : Bytes) (v : Json Double) (fs : Fields Double)
      → is_text k ≡ true
      → IsPrintable d v
      → ReadsValue v
      → ReadsMembers fs
      → ReadsValue (object (field k v fs))
  object_Reads k v fs t p hv hfs rest zero enough stop = absurd (omega arith)
  object_Reads k v fs t p hv hfs rest (suc zero) enough stop =
      absurd (unfold print_value in omega arith)
  object_Reads k v fs t p hv hfs rest (suc (suc fuel)) enough stop = rw (
    print_value_object,
    parse_value_object,
    parse_members-field k v fs rest fuel t p hv hfs (object_fuel d k v fs fuel enough),
  )

  empty_array_Reads : ReadsValue (array no_items)
  empty_array_Reads rest zero enough stop = absurd (omega arith)
  empty_array_Reads rest (suc fuel) enough stop = unfold print_value parse_value skip_ws in refl

  empty_object_Reads : ReadsValue (object no_fields)
  empty_object_Reads rest zero enough stop = absurd (omega arith)
  empty_object_Reads rest (suc fuel) enough stop = unfold print_value parse_value skip_ws in refl

  rest_Reads :
      (v : Json Double) (vs : Items Double)
      → IsPrintable d v
      → ReadsValue v
      → ReadsRest vs
      → ReadsRest (item v vs)
  rest_Reads v vs p hv hvs w rest zero enough = absurd (omega arith)
  rest_Reads v vs p hv hvs w rest (suc fuel) enough = rw (
    print_items_item,
    after_element_comma,
    parse_elements-item v vs rest fuel p hv hvs (items_fuel d v vs fuel enough),
  )

  members_Read :
      (k : Bytes) (v : Json Double) (fs : Fields Double)
      → is_text k ≡ true
      → IsPrintable d v
      → ReadsValue v
      → ReadsMembers fs
      → ReadsMembers (field k v fs)
  members_Read k v fs t p hv hfs j w rest zero enough = absurd (omega arith)
  members_Read k v fs t p hv hfs j w rest (suc fuel) enough = rw (
    print_fields_field,
    after_member_comma,
    parse_members-field k v fs rest fuel t p hv hfs (fields_fuel d k v fs fuel enough),
  )

  mutual
    unfolding IsPrintable

    value_Reads : (v : Json Double) → IsPrintable d v → ReadsValue v
    value_Reads null h = null_Reads
    value_Reads (bool b) h = bool_Reads b
    value_Reads (number x) h = number_Reads x h
    value_Reads (string s) h = string_Reads s h
    value_Reads (array no_items) h = empty_array_Reads
    value_Reads (array (item v vs)) h = array_Reads v vs h.0 (value_Reads v h.0) (items_Read vs h.1)
    value_Reads (object no_fields) h = empty_object_Reads
    value_Reads (object (field k v fs)) h =
        object_Reads k v fs h.0 h.1 (value_Reads v h.1) (fields_Read fs h.2)

    items_Read : (vs : Items Double) → ArePrintable d vs → ReadsRest vs
    items_Read no_items h = no_items_Read
    items_Read (item v vs) h = rest_Reads v vs h.0 (value_Reads v h.0) (items_Read vs h.1)

    fields_Read : (fs : Fields Double) → FieldsArePrintable d fs → ReadsMembers fs
    fields_Read no_fields h = no_fields_Read
    fields_Read (field k v fs) h =
        members_Read k v fs h.0 h.1 (value_Reads v h.1) (fields_Read fs h.2)

  -- With fuel above twice the length of its text, a printable value is read off the front of any
  -- input that does not go on with a number byte.
  pub parse_value-print_value :
      (v : Json Double) (rest : Bytes) (fuel : ℕ)
      → IsPrintable d v
      → Stops rest
      → 2 * length (print_value d v) < fuel
      → parse_value d fuel (print_value d v ++ rest) ≡ ok (v, rest)
  parse_value-print_value v rest fuel p stop enough = value_Reads v p rest fuel enough stop
