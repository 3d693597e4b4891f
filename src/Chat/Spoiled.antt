-- ===== src/Chat/Spoiled.antt =====
-- main.c: when `blocks_to_content` gives NULL, on which a turn is discarded.
use sa.Prelude.{◌≡◌, Bool, true, false, ◌&&◌, ◌||◌, Option, none, some, List, [], ◌∷◌, not}
use sa.Prelude.Bytes.{Bytes}
use sa.Json.Value.{
  Json, null, bool, number, string, array, object, no_items, item, no_fields, field,
}
use sa.Json.Parser.{parse}
use sa.Json.Number.{Doubles}
use sa.Stream.State.{Block}
use sa.Chat.Messages.{is_tool_use}

abbrev pub is_none {ℓ} : {A : Type ℓ} → Option A → Bool
is_none none = true
is_none (some a) = false

module _ (d : Doubles) where
  open d use {Double}

  -- An array with an item, or an object with a field.
  abbrev pub has_child : Json Double → Bool
  has_child (array (item v vs)) = true
  has_child (object (field k v fs)) = true
  has_child (array no_items) = false
  has_child (object no_fields) = false
  has_child null = false
  has_child (bool b) = false
  has_child (number x) = false
  has_child (string s) = false

  abbrev pub read_with_child : Option (Json Double) → Bool
  read_with_child none = false
  read_with_child (some v) = has_child v

  -- Whether an input has arrived that is JSON and has a child.
  abbrev pub has_input : Bytes → Bool
  has_input [] = false
  has_input (c ∷ s) = read_with_child (parse d (c ∷ s))

  -- A tool use whose input is missing, no JSON, or without children.
  abbrev pub is_spoiled : Block → Bool
  is_spoiled b = is_tool_use b && not (has_input b.partial)

  abbrev pub any_spoiled : List Block → Bool
  any_spoiled [] = false
  any_spoiled (b ∷ bs) = is_spoiled b || any_spoiled bs

  unused : (b : Block) → is_tool_use b ≡ false → is_spoiled b ≡ false
  unused b h = rw h
