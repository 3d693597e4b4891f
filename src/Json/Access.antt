-- ===== src/Json/Access.antt =====
-- tinyjson.h: the lookups. A pointer that may be NULL is an `Option`.
use sa.Prelude.{
  ℕ, ◌≡◌, refl, Bool, true, false, Option, none, some, List, [], ◌∷◌, arith, if◌then◌else◌, length,
  get_elem?,
}
use sa.Prelude.Bytes.{Bytes, equal}
use sa.Json.Value.{
  Json, Fields, number, string, array, object, no_fields, field, to_list, append_field,
}

module _ {D : Type 0} where
  unfoldable pub find_field : Fields D → Bytes → Option (Json D)
  find_field no_fields k = none
  find_field (field j v fs) k = if equal j k then some v else find_field fs k

  -- `cJSON_GetObjectItem`: the first child with that key. The children of an array have no key.
  unfoldable pub get_object_item : Option (Json D) → Bytes → Option (Json D)
  unfolding find_field
  get_object_item (some (object fs)) k = find_field fs k
  get_object_item _ k = none

  abbrev pub field_values : Fields D → List (Json D)
  field_values no_fields = []
  field_values (field k v fs) = v ∷ field_values fs

  -- The child list that `child` and `next` make.
  unfoldable pub children : Option (Json D) → List (Json D)
  children (some (array xs)) = to_list xs
  children (some (object fs)) = field_values fs
  children _ = []

  unfoldable pub get_array_item : Option (Json D) → ℕ → Option (Json D)
  unfolding children
  get_array_item v index = get_elem? (children v) index

  unfoldable pub get_array_size : Option (Json D) → ℕ
  unfolding children
  get_array_size v = length (children v)

  unfoldable pub get_string_value : Option (Json D) → Option Bytes
  get_string_value (some (string s)) = some s
  get_string_value _ = none

  unfoldable pub get_number_value : Option (Json D) → Option D
  get_number_value (some (number d)) = some d
  get_number_value _ = none

  unfoldable pub is_array : Option (Json D) → Bool
  is_array (some (array xs)) = true
  is_array _ = false

  unfoldable pub is_string : Option (Json D) → Bool
  is_string (some (string s)) = true
  is_string _ = false

  -- `cJSON_GetStringValue(cJSON_GetObjectItem(v, key))`, which the program writes throughout.
  unfoldable pub get_text : Option (Json D) → Bytes → Option Bytes
  unfolding get_object_item get_string_value
  get_text v k = get_string_value (get_object_item v k)

  -- A key added last is found unless the object had it before: then the old value is still found.
  pub find_field-append_field :
      (fs : Fields D) (k j : Bytes) (w : Json D)
      → find_field (append_field fs k w) j
        ≡ elim (find_field fs j) [ some v ↦ some v | none ↦ if equal k j then some w else none ]
  unfolding find_field append_field
  find_field-append_field no_fields k j w = refl
  find_field-append_field (field i v fs) k j w = ground (arith, find_field-append_field fs k j w)
