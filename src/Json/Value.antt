-- ===== src/Json/Value.antt =====
-- tinyjson.h: the nodes (`cJSON`) and the functions that build them. A node is a value: `type`,
-- `valuestring` and `valuedouble` are the constructors and their arguments, the child list with its
-- keys (`child`, `next`, `string`) is `Items` or `Fields`; `valueint` is computed from the double.
use sa.Prelude.{◌≡◌, refl, ap, Bool, List, [], ◌∷◌, ◌++◌}
use sa.Prelude.Bytes.{Bytes}

mutual
  pub data Json (D : Type 0) : Type 0 where
    null : Json D
    bool : Bool → Json D
    number : D → Json D
    string : Bytes → Json D
    array : Items D → Json D
    object : Fields D → Json D

  pub data Items (D : Type 0) : Type 0 where
    no_items : Items D
    item : Json D → Items D → Items D

  pub data Fields (D : Type 0) : Type 0 where
    no_fields : Fields D
    field : Bytes → Json D → Fields D → Fields D

module _ {D : Type 0} where
  -- The children of an array as a list, and back.
  abbrev pub to_list : Items D → List (Json D)
  to_list no_items = []
  to_list (item v vs) = v ∷ to_list vs

  abbrev pub from_list : List (Json D) → Items D
  from_list [] = no_items
  from_list (v ∷ vs) = item v (from_list vs)

  pub to_list-from_list : (vs : List (Json D)) → to_list (from_list vs) ≡ vs
  to_list-from_list [] = refl
  to_list-from_list (v ∷ vs) = ap (◌∷◌ v) (to_list-from_list vs)

  pub from_list-to_list : (xs : Items D) → from_list (to_list xs) ≡ xs
  from_list-to_list no_items = refl
  from_list-to_list (item v vs) = ap (item v) (from_list-to_list vs)

  unfoldable pub append_item : Items D → Json D → Items D
  append_item no_items w = item w no_items
  append_item (item v vs) w = item v (append_item vs w)

  unfoldable pub append_field : Fields D → Bytes → Json D → Fields D
  append_field no_fields k w = field k w no_fields
  append_field (field j v fs) k w = field j v (append_field fs k w)

  -- `cJSON_AddItemToArray`. On a node of another type, which the program never passes, the C code
  -- would hang a child that printing does not show; here the node stays.
  unfoldable pub add_item_to_array : Json D → Json D → Json D
  unfolding append_item
  add_item_to_array (array xs) w = array (append_item xs w)
  add_item_to_array v w = v

  -- `cJSON_AddItemToObject`, and `cJSON_AddItemReferenceToObject`, whose reference shares the
  -- item's children.
  unfoldable pub add_item_to_object : Json D → Bytes → Json D → Json D
  unfolding append_field
  add_item_to_object (object fs) k w = object (append_field fs k w)
  add_item_to_object v k w = v

  unfoldable pub add_string_to_object : Json D → Bytes → Bytes → Json D
  unfolding add_item_to_object
  add_string_to_object o k s = add_item_to_object o k (string s)

  unfoldable pub add_bool_to_object : Json D → Bytes → Bool → Json D
  unfolding add_item_to_object
  add_bool_to_object o k b = add_item_to_object o k (bool b)

  unfoldable pub add_number_to_object : Json D → Bytes → D → Json D
  unfolding add_item_to_object
  add_number_to_object o k n = add_item_to_object o k (number n)

  pub to_list-append_item :
      (xs : Items D) (w : Json D) → to_list (append_item xs w) ≡ to_list xs ++ w ∷ []
  unfolding append_item
  to_list-append_item no_items w = refl
  to_list-append_item (item v vs) w = ap (◌∷◌ v) (to_list-append_item vs w)
