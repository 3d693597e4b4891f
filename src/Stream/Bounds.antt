-- ===== src/Stream/Bounds.antt =====
-- main.c: nothing that arrives makes a buffer or an index of the stream state outgrow its limit.
pub mod Body
use sa.Prelude.{
  ℕ, zero, suc, ◌-◌, ◌≤◌, ◌<◌, min, ◌≡◌, refl, ◌∙◌, inl, inr, Bool, Option, none, some, List, [],
  ◌∷◌, ◌++◌, arith, ltb, Bool-cases, length, get_or, All, length-append, length-take, length-set,
  All-set, true, lt→ltb,
}
use sa.Prelude.Bytes.{Bytes, codes, equal}
use sa.Prelude.Int.{ℤ, pos, negsuc}
use sa.Config.{max_blocks, max_sse_line, max_block_size}
use sa.Json.Value.{Json}
use sa.Json.Access.{get_object_item, get_text}
use sa.Stream.State.{raw_head_size, empty_block, access_block, Block, StreamState}
use sa.Stream.Event.{
  block_slot, field_or_empty, fitting, append_text, append_partial, put_block, start_block,
  on_start, on_delta, on_message_delta, at_slot, with_type,
}

-- The arrays of a block have room for their strings and the NUL, and its buffers keep to the cap.
pub record FitsBlock (b : Block) : Type 0 where
  pub type_fits : length b.type ≤ 31
  pub id_fits : length b.id ≤ 63
  pub name_fits : length b.name ≤ 63
  pub text_fits : length b.text ≤ max_block_size
  pub partial_fits : length b.partial ≤ max_block_size

pub record IsBounded (st : StreamState) : Type 0 where
  pub blocks_fit : All FitsBlock st.blocks
  pub all_blocks : length st.blocks ≡ max_blocks
  pub n_fits : st.n ≤ max_blocks
  pub line_fits : length st.line ≤ max_sse_line
  pub head_fits : length st.raw_head ≤ raw_head_size
  pub reason_fits : length st.stop_reason ≤ 31
  pub all_in_range : st.in_range ≡ true

length-field_or_empty : (size : ℕ) (s : Option Bytes) → length (field_or_empty size s) ≤ size - 1
length-field_or_empty size none = omega arith
length-field_or_empty size (some s) = omega (arith, length-take (size - 1) s)

length-fitting :
    (buf s : Bytes) → length buf ≤ max_block_size → length (buf ++ fitting buf s) ≤ max_block_size
unfolding fitting
length-fitting buf s h = elim (Bool-cases (ltb (length buf) max_block_size)) [
  | inl room ↦
      rw (room, length-append)
        (omega (arith, length-take (min (length s) (max_block_size - length buf)) s))
  | inr full ↦ rw (full, length-append) (omega arith)
]

start_block-FitsBlock : {D : Type 0} (cb : Option (Json D)) → FitsBlock (start_block cb)
unfolding start_block
start_block-FitsBlock cb = record {
  type_fits = length-field_or_empty 32 (get_text cb (codes "type"));
  id_fits = length-field_or_empty 64 (get_text cb (codes "id"));
  name_fits = length-field_or_empty 64 (get_text cb (codes "name"));
  text_fits = omega arith;
  partial_fits = omega arith;
}

append_text-FitsBlock : (b : Block) (s : Option Bytes) → FitsBlock b → FitsBlock (append_text b s)
unfolding append_text
append_text-FitsBlock b none h = h
append_text-FitsBlock b (some s) h = record {
  type_fits = h.type_fits;
  id_fits = h.id_fits;
  name_fits = h.name_fits;
  text_fits = length-fitting b.text s h.text_fits;
  partial_fits = h.partial_fits;
}

append_partial-FitsBlock :
    (b : Block) (s : Option Bytes) → FitsBlock b → FitsBlock (append_partial b s)
unfolding append_partial
append_partial-FitsBlock b none h = h
append_partial-FitsBlock b (some s) h = record {
  type_fits = h.type_fits;
  id_fits = h.id_fits;
  name_fits = h.name_fits;
  text_fits = h.text_fits;
  partial_fits = length-fitting b.partial s h.partial_fits;
}

-- A block that is not there is empty.
get_or-FitsBlock :
    (bs : List Block) (i : ℕ) → All FitsBlock bs → FitsBlock (get_or bs i empty_block)
get_or-FitsBlock [] i h = omega arith
get_or-FitsBlock (b ∷ bs) zero h = h.0
get_or-FitsBlock (b ∷ bs) (suc i) h = get_or-FitsBlock bs i h.1

-- An access below `MAX_BLOCKS` is inside the array.
access_in_range :
    (st : StreamState) (i : ℕ) → IsBounded st → i < max_blocks → (access_block st i).in_range ≡ true
access_in_range st i v below = rw (v.all_in_range, v.all_blocks, lt→ltb i max_blocks below)

access_block-IsBounded :
    (st : StreamState) (i : ℕ) → IsBounded st → i < max_blocks → IsBounded (access_block st i)
access_block-IsBounded st i v below = record {
  blocks_fit = v.blocks_fit;
  all_blocks = v.all_blocks;
  n_fits = v.n_fits;
  line_fits = v.line_fits;
  head_fits = v.head_fits;
  reason_fits = v.reason_fits;
  all_in_range = access_in_range st i v below;
}

put_block-IsBounded :
    (st : StreamState) (i : ℕ) (b : Block)
    → IsBounded st
    → i < max_blocks
    → FitsBlock b
    → IsBounded (put_block st i b)
put_block-IsBounded st i b v below h = record {
  blocks_fit = All-set FitsBlock st.blocks i b v.blocks_fit h;
  all_blocks = length-set st.blocks i b ∙ v.all_blocks;
  n_fits = v.n_fits;
  line_fits = v.line_fits;
  head_fits = v.head_fits;
  reason_fits = v.reason_fits;
  all_in_range = access_in_range st i v below;
}

block_slot-lt : (z : ℤ) {i : ℕ} → block_slot z ≡ some i → i < max_blocks
unfolding block_slot
block_slot-lt (pos n) h = ground arith
block_slot-lt (negsuc n) h = cc

on_start-IsBounded :
    {D : Type 0} (st : StreamState) (evt : Option (Json D)) (i : ℕ)
    → IsBounded st
    → i < max_blocks
    → IsBounded (on_start st evt i)
unfolding on_start
on_start-IsBounded st evt i v h =
    let put =
      put_block-IsBounded st i _ v h
        (start_block-FitsBlock (get_object_item evt (codes "content_block"))) in
    record {
      blocks_fit = put.blocks_fit;
      all_blocks = put.all_blocks;
      n_fits = omega arith;
      line_fits = v.line_fits;
      head_fits = v.head_fits;
      reason_fits = v.reason_fits;
      all_in_range = put.all_in_range;
    }

on_delta-IsBounded :
    {D : Type 0} (json : Bool) (st : StreamState) (dl : Option (Json D)) (dt : Bytes) (i : ℕ)
    → IsBounded st
    → i < max_blocks
    → IsBounded (on_delta json st dl dt i).0
unfolding on_delta
on_delta-IsBounded json st dl dt i v h =
    let here = get_or-FitsBlock st.blocks i v.blocks_fit in
    elim (Bool-cases (equal dt (codes "text_delta"))) [
      | inl t ↦ rw t (
          put_block-IsBounded st i _ v h
            (append_text-FitsBlock _ (get_text dl (codes "text")) here))
      | inr t ↦ elim (Bool-cases (equal dt (codes "input_json_delta"))) [
        | inl p ↦
            rw (t, p)
              (put_block-IsBounded st i _ v h
                (append_partial-FitsBlock _ (get_text dl (codes "partial_json")) here))
        | inr p ↦ rw (t, p) (access_block-IsBounded st i v h)
      ]
    ]

on_message_delta-IsBounded :
    (st : StreamState) (sr : Option Bytes) → IsBounded st → IsBounded (on_message_delta st sr)
unfolding on_message_delta
on_message_delta-IsBounded st none v = v
on_message_delta-IsBounded st (some sr) v = record {
  blocks_fit = v.blocks_fit;
  all_blocks = v.all_blocks;
  n_fits = v.n_fits;
  line_fits = v.line_fits;
  head_fits = v.head_fits;
  reason_fits = omega (arith, length-take 31 sr);
  all_in_range = v.all_in_range;
}

at_slot-IsBounded :
    (st : StreamState) (z : ℤ) (k : ℕ → StreamState × Bytes)
    → IsBounded st
    → ((i : ℕ) → i < max_blocks → IsBounded (k i).0)
    → IsBounded (at_slot st (block_slot z) k).0
at_slot-IsBounded st z k v keep = go (block_slot z) (λ i e. block_slot-lt z e)
  where
    go : (o : Option ℕ) → ((i : ℕ) → o ≡ some i → i < max_blocks) → IsBounded (at_slot st o k).0
    go none below = unfold at_slot in v
    go (some i) below = unfold at_slot in keep i (below i refl)

with_type-IsBounded :
    (st : StreamState) (t : Option Bytes) (k : Bytes → StreamState × Bytes)
    → IsBounded st
    → ((s : Bytes) → IsBounded (k s).0)
    → IsBounded (with_type st t k).0
unfolding with_type
with_type-IsBounded st none k v keep = v
with_type-IsBounded st (some t) k v keep = keep t
