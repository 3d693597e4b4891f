-- ===== src/Json/Parser.antt =====
-- tinyjson.h: the recursive-descent parser. The cursor `p .. end` is the list of bytes that are
-- left. `failed` is a NULL result, and `out_of_fuel` has no counterpart in the code.
use sa.Prelude.{
  ℕ, zero, suc, ◌+◌, ◌-◌, ◌*◌, ◌/◌, ◌%◌, Bool, true, false, ◌&&◌, ◌||◌, Option, none, some, [], ◌∷◌,
  ◌++◌, ltb, leb, ◌==◌, if◌then◌else◌, length, drop,
}
use sa.Prelude.Bytes.{Bytes, codes, starts_with, c_string}
use sa.Prelude.Decimal.{is_digit}
use sa.Json.Value.{
  Json, Items, Fields, null, bool, number, string, array, object, no_items, item, no_fields, field,
}
use sa.Json.Number.{Doubles}

-- What a parser reads: NULL, or something. On too little fuel it says so.
pub data Result {ℓ} (A : Type ℓ) : Type ℓ where
  out_of_fuel : Result A
  failed : Result A
  ok : A → Result A

abbrev pub bind {ℓ κ} : {A : Type ℓ} {B : Type κ} → Result A → (A → Result B) → Result B
bind out_of_fuel next = out_of_fuel
bind failed next = failed
bind (ok read) next = next read

-- A step on the value that was read, which leaves the rest of the input alone.
abbrev pub map_value {ℓ κ} :
    {A : Type ℓ} {B : Type κ} → (A → B) → Result (A × Bytes) → Result (B × Bytes)
map_value f (ok (a, rest)) = ok (f a, rest)
map_value f failed = failed
map_value f out_of_fuel = out_of_fuel

-- The result as a pointer: the node, or NULL.
abbrev pub value_read {ℓ} : {A : Type ℓ} → Result (A × Bytes) → Option A
value_read (ok (a, rest)) = some a
value_read failed = none
value_read out_of_fuel = none

-- `cj_skip_ws`.
abbrev pub is_ws : ℕ → Bool
is_ws c = c == b' ' || c == 9 || c == 10 || c == 13

unfoldable pub skip_ws : Bytes → Bytes
skip_ws [] = []
skip_ws (c ∷ s) = if is_ws c then skip_ws s else c ∷ s

unfoldable pub hex_value : ℕ → Option ℕ
hex_value h =
    if leb b'0' h && leb h b'9'
    then some (h - b'0')
    else if leb b'a' h && leb h b'f'
    then some (h - b'a' + 10)
    else if leb b'A' h && leb h b'F'
    then some (h - b'A' + 10)
    else none

-- `cp <<= 4; cp |= digit`, four times; the digits are below 16.
unfoldable pub hex4 : ℕ → ℕ → ℕ → ℕ → Option ℕ
hex4 a b c e = elim (hex_value a) [
  | none ↦ none
  | some w ↦ elim (hex_value b) [
    | none ↦ none
    | some x ↦ elim (hex_value c) [
      | none ↦ none
      | some y ↦ elim (hex_value e) [
        | none ↦ none
        | some z ↦ some (((w * 16 + x) * 16 + y) * 16 + z)
      ]
    ]
  ]
]

-- The encoding of a code point below 0x10000; `cp & 0x3F` and the shifts as remainders and quotients.
unfoldable pub utf8 : ℕ → Bytes
utf8 cp =
    if ltb cp 0x80
    then cp ∷ []
    else if ltb cp 0x800
    then (0xc0 + cp / 64) ∷ (0x80 + cp % 64) ∷ []
    else (0xe0 + cp / 4096) ∷ (0x80 + cp / 64 % 64) ∷ (0x80 + cp % 64) ∷ []

-- `case 'u'`, behind the `u`: what is appended, and what is left.
unfoldable pub unicode_escape : Bytes → Option (Bytes × Bytes)
unicode_escape (a ∷ b ∷ c ∷ e ∷ s) = elim (hex4 a b c e) [
  | none ↦ none
  | some cp ↦ some (utf8 cp, s)
]
unicode_escape _ = none

-- The `switch (esc)`, behind the backslash.
unfoldable pub read_escape : ℕ → Bytes → Option (Bytes × Bytes)
read_escape esc s =
    if esc == b'"'
    then some (b'"' ∷ [], s)
    else if esc == b'\\'
    then some (b'\\' ∷ [], s)
    else if esc == b'/'
    then some (b'/' ∷ [], s)
    else if esc == b'b'
    then some (8 ∷ [], s)
    else if esc == b'f'
    then some (12 ∷ [], s)
    else if esc == b'n'
    then some (10 ∷ [], s)
    else if esc == b'r'
    then some (13 ∷ [], s)
    else if esc == b't'
    then some (9 ∷ [], s)
    else if esc == b'u'
    then unicode_escape s
    else none

-- One round of the loop of `cj_parse_string_raw` at the byte `ch`, which is no quote. A backslash
-- that ends the input is taken as it is.
unfoldable pub read_char : ℕ → Bytes → Option (Bytes × Bytes)
unfolding read_escape
read_char ch [] = some (ch ∷ [], [])
read_char ch (esc ∷ s) = if ch == b'\\' then read_escape esc s else some (ch ∷ [], esc ∷ s)

-- What a round appends, and the rounds after it.
unfoldable pub next_chars :
    (Bytes → Result (Bytes × Bytes)) → Option (Bytes × Bytes) → Result (Bytes × Bytes)
next_chars rounds none = failed
next_chars rounds (some (out, rest)) = map_value (◌++◌ out) (rounds rest)

-- The loop, and the closing quote.
unfoldable pub read_chars : ℕ → Bytes → Result (Bytes × Bytes)
unfolding next_chars
read_chars zero s = out_of_fuel
read_chars (suc fuel) [] = failed
read_chars (suc fuel) (c ∷ s) =
    if c == b'"' then ok ([], s) else next_chars (read_chars fuel) (read_char c s)

-- `cj_parse_string_raw`. The caller sees its result as a C string.
unfoldable pub parse_string_raw : Bytes → Result (Bytes × Bytes)
parse_string_raw [] = failed
parse_string_raw (c ∷ s) =
    if c == b'"' then map_value c_string (read_chars (suc (length s)) s) else failed

abbrev pub is_number_byte : ℕ → Bool
is_number_byte c = is_digit c || c == b'.' || c == b'e' || c == b'E' || c == b'+' || c == b'-'

unfoldable pub take_number : Bytes → Bytes
take_number [] = []
take_number (c ∷ s) = if is_number_byte c then c ∷ take_number s else []

unfoldable pub drop_number : Bytes → Bytes
drop_number [] = []
drop_number (c ∷ s) = if is_number_byte c then drop_number s else c ∷ s

-- The bytes between `start` and the cursor: a sign first, if there is one.
unfoldable pub number_text : Bytes → Bytes
unfolding take_number
number_text [] = []
number_text (c ∷ s) = if c == b'-' || c == b'+' then c ∷ take_number s else take_number (c ∷ s)

-- The colon behind a key.
unfoldable pub expect_colon : Bytes → Result (Unit {0} × Bytes)
expect_colon [] = failed
expect_colon (c ∷ s) = if c == b':' then ok (tt, s) else failed

module _ (d : Doubles) where
  open d use {Double, strtod}

  -- `cj_parse_number`; the text and its NUL must fit `char buf[64]`.
  unfoldable pub parse_number : Bytes → Result (Json Double × Bytes)
  unfolding number_text
  parse_number s =
      let text = number_text s in
      if length text == 0
      then failed
      else if leb 64 (length text)
      then failed
      else ok (number (strtod text), drop (length text) s)

  unfoldable pub parse_string : Bytes → Result (Json Double × Bytes)
  unfolding parse_string_raw
  parse_string s = map_value string (parse_string_raw s)

  -- The last lines of `cj_parse_value`.
  unfoldable pub parse_literal : Bytes → Result (Json Double × Bytes)
  parse_literal s =
      if starts_with (codes "true") s
      then ok (bool true, drop 4 s)
      else if starts_with (codes "false") s
      then ok (bool false, drop 5 s)
      else if starts_with (codes "null") s
      then ok (null, drop 4 s)
      else failed

  -- `cj_parse_value` behind `cj_skip_ws`; the two arguments are the calls of `cj_parse_array` and
  -- `cj_parse_object`.
  unfoldable pub parse_at :
      (Bytes → Result (Json Double × Bytes))
      → (Bytes → Result (Json Double × Bytes))
      → Bytes
      → Result (Json Double × Bytes)
  parse_at on_array on_object [] = failed
  parse_at on_array on_object (c ∷ s) =
      if c == b'"'
      then parse_string (c ∷ s)
      else if c == b'{'
      then on_object (c ∷ s)
      else if c == b'['
      then on_array (c ∷ s)
      else if c == b'-' || is_digit c
      then parse_number (c ∷ s)
      else parse_literal (c ∷ s)

  -- `cj_parse_array` and `cj_parse_object` up to the `for (;;)`, which is the argument.
  unfoldable pub array_from :
      (Bytes → Result (Items Double × Bytes)) → Bytes → Result (Json Double × Bytes)
  array_from elements [] = map_value array (elements [])
  array_from elements (c ∷ s) =
      if c == b']' then ok (array no_items, s) else map_value array (elements (c ∷ s))

  unfoldable pub parse_array :
      (Bytes → Result (Items Double × Bytes)) → Bytes → Result (Json Double × Bytes)
  unfolding array_from
  parse_array elements [] = failed
  parse_array elements (c ∷ s) = if c == b'[' then array_from elements (skip_ws s) else failed

  unfoldable pub object_from :
      (Bytes → Result (Fields Double × Bytes)) → Bytes → Result (Json Double × Bytes)
  object_from members [] = map_value object (members [])
  object_from members (c ∷ s) =
      if c == b'}' then ok (object no_fields, s) else map_value object (members (c ∷ s))

  unfoldable pub parse_object :
      (Bytes → Result (Fields Double × Bytes)) → Bytes → Result (Json Double × Bytes)
  unfolding object_from
  parse_object members [] = failed
  parse_object members (c ∷ s) = if c == b'{' then object_from members (skip_ws s) else failed

  -- What follows an element: a comma and the next rounds, or the end.
  unfoldable pub after_element :
      (Bytes → Result (Items Double × Bytes)) → Json Double → Bytes → Result (Items Double × Bytes)
  after_element elements v [] = failed
  after_element elements v (c ∷ s) =
      if c == b','
      then map_value (item v) (elements s)
      else if c == b']'
      then ok (item v no_items, s)
      else failed

  unfoldable pub after_member :
      (Bytes → Result (Fields Double × Bytes))
      → Bytes
      → Json Double
      → Bytes
      → Result (Fields Double × Bytes)
  after_member members k v [] = failed
  after_member members k v (c ∷ s) =
      if c == b','
      then map_value (field k v) (members s)
      else if c == b'}'
      then ok (field k v no_fields, s)
      else failed

  -- `cj_parse_value`, and the loops of `cj_parse_array` and `cj_parse_object`: each call costs a
  -- unit of fuel.
  unfoldable mutual
    unfolding parse_at parse_array parse_object after_element after_member expect_colon

    pub parse_value : ℕ → Bytes → Result (Json Double × Bytes)
    parse_value zero s = out_of_fuel
    parse_value (suc fuel) s =
        parse_at (parse_array (parse_elements fuel)) (parse_object (parse_members fuel)) (skip_ws s)

    pub parse_elements : ℕ → Bytes → Result (Items Double × Bytes)
    parse_elements zero s = out_of_fuel
    parse_elements (suc fuel) s =
        bind (parse_value fuel (skip_ws s))
          λ (v, rest). after_element (parse_elements fuel) v (skip_ws rest)

    pub parse_members : ℕ → Bytes → Result (Fields Double × Bytes)
    parse_members zero s = out_of_fuel
    parse_members (suc fuel) s = bind (parse_string_raw (skip_ws s)) λ (k, after_key).
        bind (expect_colon (skip_ws after_key)) λ (_, after_colon).
          bind (parse_value fuel (skip_ws after_colon))
            λ (v, rest). after_member (parse_members fuel) k v (skip_ws rest)

  -- `cJSON_Parse` on a buffer: the text ends at the first NUL, and what follows a value is ignored.
  unfoldable pub parse_text : Bytes → Result (Json Double × Bytes)
  unfolding parse_value
  parse_text s = parse_value (2 * length (c_string s) + 1) (c_string s)

  unfoldable pub parse : Bytes → Option (Json Double)
  unfolding parse_text
  parse s = value_read (parse_text s)
