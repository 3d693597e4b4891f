-- ===== src/Session/Compact.antt =====
-- main.c: `compact_clear_tool_results`: the texts of older tool results are replaced in place.
pub mod Settled
use sa.Prelude.{
  ℕ, ◌+◌, Bool, false, not, ◌&&◌, Option, none, some, ltb, if◌then◌else◌, length, zero, suc, ◌-◌,
  List, [], ◌∷◌,
}
use sa.Prelude.Bytes.{Bytes, codes, equal}
use sa.Json.Value.{Json, string, object, Items, no_items, item, Fields, no_fields, field, array}
use sa.Json.Access.{get_text}

abbrev pub cleared : Bytes
cleared = codes "[cleared]"

abbrev pub is_text_of : Bytes → Option Bytes → Bool
is_text_of t none = false
is_text_of t (some s) = equal s t

abbrev pub is_long : Option Bytes → Bool
is_long none = false
is_long (some s) = ltb 10 (length s) && not (equal s cleared)

abbrev pub keep_from : (n keep : ℕ) → ℕ
keep_from n keep = if ltb keep n then n - keep else 0

-- A node after the change, and the number of texts cleared in it.
module _ {D : Type 0} where
  -- `cJSON_SetValuestring` on the first child with that key.
  unfoldable pub set_field : Fields D → Bytes → Bytes → Fields D
  set_field no_fields k s = no_fields
  set_field (field j v fs) k s =
      let rest = set_field fs k s in if equal j k then field j (string s) fs else field j v rest

  unfoldable pub set_text : Json D → Bytes → Bytes → Json D
  unfolding set_field
  set_text (object fs) k s = object (set_field fs k s)
  set_text v k s = v

  -- The guards of the inner loop.
  unfoldable pub clearable : Json D → Bool
  clearable v =
      is_text_of (codes "tool_result") (get_text (some v) (codes "type"))
      && is_long (get_text (some v) (codes "content"))

  unfoldable pub clear_item : Json D → Json D × ℕ
  unfolding clearable set_text
  clear_item v = if clearable v then (set_text v (codes "content") cleared, 1) else (v, 0)

  -- The inner loop.
  unfoldable pub clear_items : Items D → Items D × ℕ
  unfolding clear_item
  clear_items no_items = (no_items, 0)
  clear_items (item v vs) =
      let first = clear_item v in
      let rest = clear_items vs in (item first.0 rest.0, first.1 + rest.1)

  unfoldable pub clear_array : Json D → Json D × ℕ
  unfolding clear_items
  clear_array (array xs) = let r = clear_items xs in (array r.0, r.1)
  clear_array v = (v, 0)

  -- On the first child whose key is "content".
  unfoldable pub clear_content : Fields D → Fields D × ℕ
  unfolding clear_array
  clear_content no_fields = (no_fields, 0)
  clear_content (field k v fs) =
      let changed = clear_array v in
      let rest = clear_content fs in
      if equal k (codes "content")
      then (field k changed.0 fs, changed.1)
      else (field k v rest.0, rest.1)

  -- One round of the outer loop.
  unfoldable pub clear_message : Json D → Json D × ℕ
  unfolding clear_content
  clear_message (object fs) = let r = clear_content fs in (object r.0, r.1)
  clear_message v = (v, 0)

  unfoldable pub clear_first : ℕ → List (Json D) → List (Json D) × ℕ
  unfolding clear_message
  clear_first zero ms = (ms, 0)
  clear_first (suc n) [] = ([], 0)
  clear_first (suc n) (m ∷ ms) =
      let first = clear_message m in
      let rest = clear_first n ms in (first.0 ∷ rest.0, first.1 + rest.1)

  -- The messages, and the number of results cleared.
  unfoldable pub compact_clear_tool_results : List (Json D) → ℕ → List (Json D) × ℕ
  unfolding clear_first
  compact_clear_tool_results ms keep = clear_first (keep_from (length ms) keep) ms
