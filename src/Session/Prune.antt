-- ===== src/Session/Prune.antt =====
-- main.c: `session_prune_empty_tool_use`: the loop from the last index to the first that deletes the
-- messages a broken tool use has left.
pub mod Reference
use sa.Prelude.{
  ℕ, zero, suc, Bool, ◌&&◌, Option, none, List, [], ◌∷◌, ◌==◌, if◌then◌else◌, length, get_elem?,
}
use sa.Prelude.Bytes.{codes}
use sa.Json.Value.{Json}
use sa.Json.Access.{get_object_item, get_array_item, get_array_size, is_array, get_text}
use sa.Session.Compact.{is_text_of}

module _ {D : Type 0} where
  -- `cJSON_DeleteItemFromArray`.
  unfoldable pub delete_item : List (Json D) → ℕ → List (Json D)
  delete_item [] i = []
  delete_item (m ∷ ms) zero = ms
  delete_item (m ∷ ms) (suc i) = m ∷ delete_item ms i

  -- The one block of a message whose content has just one.
  unfoldable pub only_block : Option (Json D) → Option (Json D)
  only_block m =
      let content = get_object_item m (codes "content") in
      if is_array content && get_array_size content == 1 then get_array_item content 0 else none

  -- An assistant message that is one tool use without input.
  unfoldable pub poisoned : Option (Json D) → Bool
  unfolding only_block
  poisoned m =
      let block = only_block m in
      is_text_of (codes "assistant") (get_text m (codes "role"))
      && is_text_of (codes "tool_use") (get_text block (codes "type"))
      && get_array_size (get_object_item block (codes "input")) == 0

  unfoldable pub is_result : Option (Json D) → Bool
  unfolding only_block
  is_result m = is_text_of (codes "tool_result") (get_text (only_block m) (codes "type"))

  -- One round of the loop.
  unfoldable pub prune_at : ℕ → List (Json D) × ℕ → List (Json D) × ℕ
  unfolding delete_item poisoned is_result
  prune_at i (ms, removed) =
      let rest = delete_item ms i in
      if poisoned (get_elem? ms i)
      then if is_result (get_elem? rest i)
        then (delete_item rest i, suc (suc removed))
        else (rest, suc removed)
      else (ms, removed)

  -- The rounds for the indices below `n`, from the last one down.
  unfoldable pub prune_below : ℕ → List (Json D) × ℕ → List (Json D) × ℕ
  unfolding prune_at
  prune_below zero s = s
  prune_below (suc i) s = prune_below i (prune_at i s)

  unfoldable pub session_prune_empty_tool_use : List (Json D) → List (Json D) × ℕ
  unfolding prune_below
  session_prune_empty_tool_use ms = prune_below (length ms) (ms, 0)
