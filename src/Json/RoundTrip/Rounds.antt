-- ===== src/Json/RoundTrip/Rounds.antt =====
-- One round of each loop of the parser on printed text, and the texts of arrays and objects
-- with what stands behind them.
use sa.Prelude.{
  ℕ, suc, ◌*◌, ◌<◌, ◌≡◌, refl, true, false, [], ◌∷◌, ◌++◌, append_assoc, arith, length, every,
  length-append,
}
use sa.Prelude.Bytes.{Bytes, codes, starts_with}
use sa.Prelude.Int.{ℤ, pos, negsuc}
use sa.Prelude.Decimal.{decimal, decimal_ℤ, is_digit, every-decimal, length-decimal_pos}
use sa.Json.Value.{Json, null, bool, number, string, array, object, Items, item, Fields, field}
use sa.Json.Number.{Doubles}
use sa.Json.Printer.{print_string, print_number, print_value, print_items, print_fields}
use sa.Json.Parser.{
  bind, map_value, skip_ws, parse_string_raw, expect_colon, parse_number, parse_string,
  parse_literal, parse_at, array_from, parse_array, parse_object, after_element, after_member,
  parse_value, parse_elements, parse_members, Result, ok,
}
use sa.Json.RoundTrip.Printable.{Begins}

module _ (d : Doubles) where
  open d use {Double}

  -- One round of each loop of the parser.
  pub parse_value_lem :
      (fuel : ℕ) (s : Bytes)
      → parse_value d (suc fuel) s
        ≡ parse_at d
            (parse_array d (parse_elements d fuel))
            (parse_object d (parse_members d fuel))
            (skip_ws s)
  unfolding parse_value
  parse_value_lem fuel s = refl

  pub parse_elements_lem :
      (fuel : ℕ) (s : Bytes)
      → parse_elements d (suc fuel) s
        ≡ bind
            (parse_value d fuel (skip_ws s))
            (λ (v, rest). after_element d (parse_elements d fuel) v (skip_ws rest))
  unfolding parse_value
  parse_elements_lem fuel s = refl

  pub parse_members_lem :
      (fuel : ℕ) (s : Bytes)
      → parse_members d (suc fuel) s
        ≡ bind (parse_string_raw (skip_ws s)) (λ (k, after_key).
          bind (expect_colon (skip_ws after_key)) (λ (_, after_colon).
            bind
              (parse_value d fuel (skip_ws after_colon))
              (λ (v, rest). after_member d (parse_members d fuel) k v (skip_ws rest))))
  unfolding parse_value
  parse_members_lem fuel s = refl

  pub print_value_number : (x : Double) → print_value d (number x) ≡ print_number d x
  unfolding print_value
  print_value_number x = refl

  pub print_value_string : (s : Bytes) → print_value d (string s) ≡ print_string s
  unfolding print_value
  print_value_string s = refl

  pub parse_literals :
      (rest : Bytes) (fuel : ℕ)
      → (parse_value d (suc fuel) (codes "null" ++ rest) ≡ ok (null, rest))
        × (parse_value d (suc fuel) (codes "true" ++ rest) ≡ ok (bool true, rest))
        × (parse_value d (suc fuel) (codes "false" ++ rest) ≡ ok (bool false, rest))
  unfolding parse_value skip_ws starts_with parse_literal
  parse_literals rest fuel = (refl, refl, refl)

  pub parse_at-digits :
      (a o : Bytes → Result (Json Double × Bytes)) (s rest : Bytes)
      → 0 < length s
      → every is_digit s ≡ true
      → parse_at d a o (s ++ rest) ≡ parse_number d (s ++ rest)
  unfolding parse_at
  parse_at-digits a o [] rest h e = absurd (omega arith)
  parse_at-digits a o (c ∷ s) rest h e = ground arith

  pub parse_at-number :
      (a o : Bytes → Result (Json Double × Bytes)) (z : ℤ) (rest : Bytes)
      → parse_at d a o (decimal_ℤ z ++ rest) ≡ parse_number d (decimal_ℤ z ++ rest)
  unfolding parse_at decimal_ℤ
  parse_at-number a o (pos n) rest =
      parse_at-digits a o (decimal n) rest (length-decimal_pos n) (every-decimal n)
  parse_at-number a o (negsuc n) rest = refl

  pub parse_at-print_string :
      (a o : Bytes → Result (Json Double × Bytes)) (s rest : Bytes)
      → parse_at d a o (print_string s ++ rest) ≡ parse_string d (print_string s ++ rest)
  unfolding parse_at print_string
  parse_at-print_string a o s rest = refl

  pub array_from-Begins :
      (elements : Bytes → Result (Items Double × Bytes)) (s : Bytes)
      → Begins s
      → array_from d elements s ≡ map_value array (elements s)
  unfolding array_from
  array_from-Begins elements [] h = absurd h
  array_from-Begins elements (c ∷ s) h = ground arith

  pub array_fuel :
      (v : Json Double) (vs : Items Double) (fuel : ℕ)
      → 2 * length (print_value d (array (item v vs))) < suc (suc fuel)
      → 2 * length (print_value d v ++ print_items d vs false) < fuel
  unfolding print_value
  array_fuel v vs fuel h =
      omega (arith, length-append (print_value d v ++ print_items d vs false) (b']' ∷ []))

  pub items_fuel :
      (v : Json Double) (vs : Items Double) (fuel : ℕ)
      → 2 * length (print_items d (item v vs) false) < suc fuel
      → 2 * length (print_value d v ++ print_items d vs false) < fuel
  unfolding print_value
  items_fuel v vs fuel h = omega arith

  pub object_fuel :
      (k : Bytes) (v : Json Double) (fs : Fields Double) (fuel : ℕ)
      → 2 * length (print_value d (object (field k v fs))) < suc (suc fuel)
      → 2 * length (print_value d v ++ print_fields d fs false) < fuel
  unfolding print_value
  object_fuel k v fs fuel h =
      let tail = print_value d v ++ print_fields d fs false in
      omega (
        arith,
        length-append (print_string k ++ (b':' ∷ tail)) (b'}' ∷ []),
        length-append (print_string k) (b':' ∷ tail),
      )

  pub fields_fuel :
      (k : Bytes) (v : Json Double) (fs : Fields Double) (fuel : ℕ)
      → 2 * length (print_fields d (field k v fs) false) < suc fuel
      → 2 * length (print_value d v ++ print_fields d fs false) < fuel
  unfolding print_value
  fields_fuel k v fs fuel h =
      omega (
        arith,
        length-append (print_string k) (b':' ∷ (print_value d v ++ print_fields d fs false)),
      )

  pub after_element_comma :
      (fuel : ℕ) (w : Json Double) (s : Bytes)
      → after_element d (parse_elements d fuel) w (b',' ∷ s)
        ≡ map_value (item w) (parse_elements d fuel s)
  unfolding after_element
  after_element_comma fuel w s = refl

  pub after_member_comma :
      (fuel : ℕ) (k : Bytes) (w : Json Double) (s : Bytes)
      → after_member d (parse_members d fuel) k w (b',' ∷ s)
        ≡ map_value (field k w) (parse_members d fuel s)
  unfolding after_member
  after_member_comma fuel k w s = refl

  pub print_value_array :
      (v : Json Double) (vs : Items Double) (rest : Bytes)
      → print_value d (array (item v vs)) ++ rest
        ≡ b'[' ∷ (print_value d v ++ (print_items d vs false ++ (b']' ∷ rest)))
  print_value_array v vs rest = (unfold print_value in simp append_assoc)

  pub print_value_object :
      (k : Bytes) (v : Json Double) (fs : Fields Double) (rest : Bytes)
      → print_value d (object (field k v fs)) ++ rest
        ≡ b'{'
          ∷ (print_string k
              ++ (b':' ∷ (print_value d v ++ (print_fields d fs false ++ (b'}' ∷ rest)))))
  print_value_object k v fs rest = (unfold print_value in simp append_assoc)

  pub print_items_item :
      (v : Json Double) (vs : Items Double) (rest : Bytes)
      → print_items d (item v vs) false ++ rest
        ≡ b',' ∷ (print_value d v ++ (print_items d vs false ++ rest))
  print_items_item v vs rest = (unfold print_items in simp append_assoc)

  pub print_fields_field :
      (k : Bytes) (v : Json Double) (fs : Fields Double) (rest : Bytes)
      → print_fields d (field k v fs) false ++ rest
        ≡ b',' ∷ (print_string k ++ (b':' ∷ (print_value d v ++ (print_fields d fs false ++ rest))))
  print_fields_field k v fs rest = (unfold print_fields in simp append_assoc)

  pub parse_value_array :
      (fuel : ℕ) (s : Bytes)
      → parse_value d (suc fuel) (b'[' ∷ s) ≡ array_from d (parse_elements d fuel) (skip_ws s)
  unfolding parse_value skip_ws
  parse_value_array fuel s = refl

  -- A key follows the opening brace.
  pub parse_value_object :
      (fuel : ℕ) (k s : Bytes)
      → parse_value d (suc fuel) (b'{' ∷ (print_string k ++ s))
        ≡ map_value object (parse_members d fuel (print_string k ++ s))
  unfolding parse_value skip_ws print_string
  parse_value_object fuel k s = refl
