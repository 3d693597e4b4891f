-- ===== src/Stream/Content.antt =====
-- main.c: `blocks_to_content`.
use sa.Prelude.{Option, none, some, List, [], ◌∷◌, ltb, ◌==◌, if◌then◌else◌, length, take}
use sa.Prelude.Bytes.{Bytes, codes, equal}
use sa.Json.Value.{
  from_list, add_item_to_object, add_string_to_object, Json, array, object, no_fields,
}
use sa.Json.Number.{Doubles}
use sa.Json.Access.{get_array_size}
use sa.Json.Parser.{parse}
use sa.Stream.State.{Block, StreamState}

module _ (d : Doubles) where
  open d use {Double}

  -- `b->partial.len > 0 ? cJSON_Parse(b->partial.data) : NULL`.
  unfoldable pub block_input : Block → Option (Json Double)
  block_input b = if ltb 0 (length b.partial) then parse d b.partial else none

  unfoldable pub typed : Bytes → Json Double
  typed t = add_string_to_object (object no_fields) (codes "type") t

  -- NULL, or an input with no children, spoils the turn.
  unfoldable pub usable : Option (Json Double) → Option (Json Double)
  usable none = none
  usable (some v) = if get_array_size (some v) == 0 then none else some v

  unfoldable pub tool_use_object : Block → Option (Json Double) → Option (Json Double)
  tool_use_object b none = none
  tool_use_object b (some input) = some (
      add_item_to_object
        (add_string_to_object (add_string_to_object (typed b.type) (codes "id") b.id) (codes "name")
          b.name)
        (codes "input") input)

  -- One round of the loop for a block that has a type.
  unfoldable pub block_object : Block → Option (Json Double)
  unfolding typed usable tool_use_object block_input
  block_object b =
      if equal b.type (codes "text")
      then some (add_string_to_object (typed b.type) (codes "text") b.text)
      else if equal b.type (codes "tool_use")
      then tool_use_object b (usable (block_input b))
      else some (typed b.type)

  abbrev pub cons_object :
      Option (Json Double) → Option (List (Json Double)) → Option (List (Json Double))
  cons_object (some v) (some vs) = some (v ∷ vs)
  cons_object _ _ = none

  unfoldable pub objects_of : List Block → Option (List (Json Double))
  unfolding block_object
  objects_of [] = some []
  objects_of (b ∷ bs) =
      if equal b.type [] then objects_of bs else cons_object (block_object b) (objects_of bs)

  -- The content array, or NULL.
  unfoldable pub blocks_to_content : StreamState → Option (Json Double)
  unfolding objects_of
  blocks_to_content st = elim (objects_of (take st.n st.blocks)) [
    | none ↦ none
    | some vs ↦ some (array (from_list vs))
  ]
