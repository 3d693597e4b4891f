-- ===== src/Chat/Messages.antt =====
-- main.c: the messages of a turn: `make_user_msg`, and the pieces that `chat_turn` builds.
use sa.Prelude.{ℕ, Bool, false, ◌||◌, List, [], ◌∷◌}
use sa.Prelude.Bytes.{Bytes, codes, equal}
use sa.Json.Value.{
  add_item_to_object, add_string_to_object, Json, array, object, no_items, item, no_fields,
}
use sa.Stream.State.{Block}

-- How a round ends: with a return value, or with the next round.
pub data Next : Type 0 where
  return : ℕ → Next
  continue : Next

abbrev pub is_tool_use : Block → Bool
is_tool_use b = equal b.type (codes "tool_use")

unfoldable pub has_tool_use : List Block → Bool
has_tool_use [] = false
has_tool_use (b ∷ bs) = is_tool_use b || has_tool_use bs

module _ {D : Type 0} where
  unfoldable pub make_message : (role : Bytes) → (content : Json D) → Json D
  make_message role content =
      add_item_to_object (add_string_to_object (object no_fields) (codes "role") role)
        (codes "content") content

  unfoldable pub make_user_msg : Bytes → Json D
  make_user_msg text =
      let typed_block = add_string_to_object (object no_fields) (codes "type") (codes "text") in
      let block = add_string_to_object typed_block (codes "text") text in
      make_message (codes "user") (array (item block no_items))

  unfoldable pub tool_result : Block → Bytes → Json D
  tool_result b out =
      let typed_item =
        add_string_to_object (object no_fields) (codes "type") (codes "tool_result") in
      let named = add_string_to_object typed_item (codes "tool_use_id") b.id in
      add_string_to_object named (codes "content") out
