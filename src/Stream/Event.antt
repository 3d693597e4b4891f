-- ===== src/Stream/Event.antt =====
-- main.c: `handle_event`. It returns the new state and what it wrote to stdout; the warnings that
-- go to stderr are left out.
use sa.Prelude.{
  ℕ, ◌+◌, ◌-◌, min, max, Bool, Option, none, some, [], ◌++◌, ltb, if◌then◌else◌, length, set, take,
}
use sa.Prelude.Bytes.{Bytes, codes, equal}
use sa.Prelude.Int.{ℤ, pos, negsuc}
use sa.Config.{max_blocks, max_block_size}
use sa.Json.Value.{Json}
use sa.Json.Number.{Doubles}
use sa.Json.Access.{get_object_item, get_number_value, get_text}
use sa.Json.Parser.{parse}
use sa.Stream.State.{access_block, block_at, copy_field, Block, StreamState}

-- `if (idx >= 0 && idx < MAX_BLOCKS)`.
unfoldable pub block_slot : ℤ → Option ℕ
block_slot (pos i) = if ltb i max_blocks then some i else none
block_slot (negsuc i) = none

-- A field that is cleared, and then copied if the event has it.
abbrev pub field_or_empty : ℕ → Option Bytes → Bytes
field_or_empty size none = []
field_or_empty size (some s) = copy_field size s

-- `buf_append` up to `MAX_BLOCK_SIZE`: the bytes of `s` that still fit.
unfoldable pub fitting : Bytes → Bytes → Bytes
fitting buf s =
    if ltb (length buf) max_block_size
    then take (min (length s) (max_block_size - length buf)) s
    else []

unfoldable pub append_text : Block → Option Bytes → Block
unfolding fitting
append_text b none = b
append_text b (some s) = record b { text = b.text ++ fitting b.text s }

unfoldable pub append_partial : Block → Option Bytes → Block
unfolding fitting
append_partial b none = b
append_partial b (some s) = record b { partial = b.partial ++ fitting b.partial s }

-- What is shown of a text delta: nothing under `--json`.
unfoldable pub shown : Bool → Block → Option Bytes → Bytes
unfolding fitting
shown json b none = []
shown json b (some s) = if json then [] else fitting b.text s

-- What is written at `&st->blocks[i]`. Outside the array nothing is, and the state is marked.
abbrev pub put_block : StreamState → ℕ → Block → StreamState
put_block st i b = record (access_block st i) { blocks = set st.blocks i b }

module _ {D : Type 0} where
  unfoldable pub start_block : Option (Json D) → Block
  start_block cb = record {
    type = field_or_empty 32 (get_text cb (codes "type"));
    id = field_or_empty 64 (get_text cb (codes "id"));
    name = field_or_empty 64 (get_text cb (codes "name"));
    text = [];
    partial = [];
  }

  -- `content_block_start` at a slot in range.
  unfoldable pub on_start : StreamState → Option (Json D) → ℕ → StreamState
  unfolding start_block
  on_start st evt i =
      record (put_block st i (start_block (get_object_item evt (codes "content_block")))) {
        n = max (i + 1) st.n;
      }

  -- `content_block_delta` at a slot in range, for the delta `dl` of type `dt`.
  unfoldable pub on_delta : Bool → StreamState → Option (Json D) → Bytes → ℕ → StreamState × Bytes
  unfolding append_text append_partial shown
  on_delta json st dl dt i =
      let b = block_at st i in
      if equal dt (codes "text_delta")
      then (
        put_block st i (append_text b (get_text dl (codes "text"))),
        shown json b (get_text dl (codes "text")),
      )
      else if equal dt (codes "input_json_delta")
      then (put_block st i (append_partial b (get_text dl (codes "partial_json"))), [])
      else (access_block st i, [])

unfoldable pub on_message_delta : StreamState → Option Bytes → StreamState
on_message_delta st none = st
on_message_delta st (some sr) = record st { stop_reason = copy_field 32 sr }

-- What a handler does with a slot: nothing without one.
unfoldable pub at_slot : StreamState → Option ℕ → (ℕ → StreamState × Bytes) → StreamState × Bytes
at_slot st none k = (st, [])
at_slot st (some i) k = k i

-- `if (!dt) return`.
unfoldable pub with_type :
    StreamState → Option Bytes → (Bytes → StreamState × Bytes) → StreamState × Bytes
with_type st none k = (st, [])
with_type st (some t) k = k t

module _ (d : Doubles) where
  open d use {Double, to_int}

  -- `cJSON_IsNumber(jidx) ? jidx->valueint : -1`.
  unfoldable pub event_index : Option Double → ℤ
  event_index none = negsuc 0
  event_index (some x) = to_int x

  unfoldable pub event_slot : Option (Json Double) → Option ℕ
  unfolding event_index block_slot
  event_slot evt = block_slot (event_index (get_number_value (get_object_item evt (codes "index"))))

  -- The event `evt` of type `t`.
  unfoldable pub on_event : Bool → StreamState → Option (Json Double) → Bytes → StreamState × Bytes
  unfolding on_start on_delta on_message_delta at_slot with_type
  on_event json st evt t =
      if equal t (codes "content_block_start")
      then at_slot st (event_slot evt) (λ i. (on_start st evt i, []))
      else if equal t (codes "content_block_delta")
      then at_slot st (event_slot evt) (λ i.
        let dl = get_object_item evt (codes "delta") in
        with_type st (get_text dl (codes "type")) (λ dt. on_delta json st dl dt i))
      else if equal t (codes "message_delta")
      then (
        on_message_delta st (get_text (get_object_item evt (codes "delta")) (codes "stop_reason")),
        [],
      )
      else (st, [])

  unfoldable pub handle_event : Bool → StreamState → Bytes → StreamState × Bytes
  unfolding on_event with_type
  handle_event json st s =
      let evt = parse d s in with_type st (get_text evt (codes "type")) (on_event json st evt)
