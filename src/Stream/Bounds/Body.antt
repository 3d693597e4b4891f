-- ===== src/Stream/Bounds/Body.antt =====
-- main.c: the bounds through `handle_event`, the loop over the bytes, and `on_chunk`.
use sa.Prelude.{
  ℕ, ◌-◌, ◌≤◌, min, inl, inr, Bool, true, false, Option, [], ◌∷◌, arith, ltb, ◌==◌, if◌then◌else◌,
  Bool-cases, length, length-append, length-take, ◌++◌, leb, refl,
}
use sa.Prelude.Bytes.{Bytes, codes, equal}
use sa.Config.{max_sse_line}
use sa.Json.Value.{Json}
use sa.Json.Number.{Doubles}
use sa.Json.Access.{get_object_item, get_number_value, get_text}
use sa.Json.Parser.{parse}
use sa.Stream.State.{raw_head_size, initial, StreamState}
use sa.Stream.Event.{event_index, event_slot, on_event, handle_event}
use sa.Stream.Chunk.{is_data_line, payload, keep_head, end_line, feed_byte, feed, on_chunk}
use sa.Stream.Bounds.{
  IsBounded, on_start-IsBounded, on_delta-IsBounded, on_message_delta-IsBounded, at_slot-IsBounded,
  with_type-IsBounded,
}

if-IsBounded :
    (c : Bool) (x y : StreamState × Bytes)
    → IsBounded x.0
    → IsBounded y.0
    → IsBounded (if c then x else y).0
if-IsBounded true x y hx hy = hx
if-IsBounded false x y hx hy = hy

module _ (d : Doubles) (json : Bool) where
  open d use {Double}

  on_event-IsBounded :
      (st : StreamState) (evt : Option (Json Double)) (t : Bytes)
      → IsBounded st
      → IsBounded (on_event d json st evt t).0
  unfolding on_event event_slot
  on_event-IsBounded st evt t v =
      let index = event_index d (get_number_value (get_object_item evt (codes "index"))) in
      let dl = get_object_item evt (codes "delta") in
      if-IsBounded (equal t (codes "content_block_start")) _ _
        (at_slot-IsBounded st index _ v (λ i h. on_start-IsBounded st evt i v h))
        (if-IsBounded (equal t (codes "content_block_delta")) _ _
          (at_slot-IsBounded st index _ v (λ i h.
            with_type-IsBounded st (get_text dl (codes "type")) _ v
              (λ dt. on_delta-IsBounded json st dl dt i v h)))
          (if-IsBounded (equal t (codes "message_delta")) _ _
            (on_message_delta-IsBounded st (get_text dl (codes "stop_reason")) v) v))

  pub handle_event-IsBounded :
      (st : StreamState) (s : Bytes) → IsBounded st → IsBounded (handle_event d json st s).0
  unfolding handle_event
  handle_event-IsBounded st s v =
      with_type-IsBounded st (get_text (parse d s) (codes "type")) _ v
        (λ t. on_event-IsBounded st (parse d s) t v)

  -- A state with another line, another flag, another head that fit.
  framed-IsBounded :
      (st : StreamState) (l : Bytes) (b : Bool)
      → IsBounded st
      → length l ≤ max_sse_line
      → IsBounded (record st { line = l; line_dropped = b })
  framed-IsBounded st l b v h = record {
    blocks_fit = v.blocks_fit;
    all_blocks = v.all_blocks;
    n_fits = v.n_fits;
    line_fits = h;
    head_fits = v.head_fits;
    reason_fits = v.reason_fits;
    all_in_range = v.all_in_range;
  }

  grow_line-IsBounded :
      (st : StreamState) (c : ℕ)
      → IsBounded st
      → IsBounded
          (if◌then◌else◌ {A = StreamState × Bytes}
            (leb max_sse_line (length st.line))
            (record st { line_dropped = true }, [])
            (record st { line = st.line ++ c ∷ [] }, [])).0
  grow_line-IsBounded st c v = elim (Bool-cases (leb max_sse_line (length st.line))) [
    | inl full ↦ rw full (framed-IsBounded st st.line true v v.line_fits)
    | inr room ↦ rw room (
        framed-IsBounded st (st.line ++ c ∷ []) st.line_dropped v
          (rw (length-append st.line (c ∷ [])) (ground arith)))
  ]

  feed_byte-IsBounded :
      (st : StreamState) (c : ℕ) → IsBounded st → IsBounded (feed_byte d json st c).0
  unfolding feed_byte end_line
  feed_byte-IsBounded st c v =
      let handled = handle_event-IsBounded st (payload st.line) v in
      if-IsBounded (c == b'\n') _ _
        (if-IsBounded st.line_dropped _ _ (framed-IsBounded st [] false v (omega arith)) (
          if-IsBounded (is_data_line st.line) _ _
            (framed-IsBounded (handle_event d json st (payload st.line)).0 [] _ handled
              (omega arith))
            (framed-IsBounded st [] st.line_dropped v (omega arith))))
        (if-IsBounded (c == b'\r') _ _ v (grow_line-IsBounded st c v))

  pub feed-IsBounded :
      (st : StreamState) (s : Bytes) → IsBounded st → IsBounded (feed d json st s).0
  unfolding feed
  feed-IsBounded st [] v = v
  feed-IsBounded st (c ∷ s) v =
      feed-IsBounded (feed_byte d json st c).0 s (feed_byte-IsBounded st c v)

  length-keep_head :
      (head s : Bytes) → length head ≤ raw_head_size → length (keep_head head s) ≤ raw_head_size
  unfolding keep_head
  length-keep_head head s h = elim (Bool-cases (ltb (length head) raw_head_size)) [
    | inl room ↦
        rw (room, length-append)
          (omega (arith, length-take (min (length s) (raw_head_size - length head)) s))
    | inr full ↦ rw full h
  ]

  -- From a state within its bounds, whatever bytes arrive: every access to a block, of a start and of
  -- a delta, is inside the array of `MAX_BLOCKS` blocks; the fixed arrays have room for what is copied
  -- into them, and the buffers keep to their caps.
  pub on_chunk-IsBounded :
      (interrupted : Bool) (st : StreamState) (s : Bytes)
      → IsBounded st
      → IsBounded (on_chunk d json interrupted st s).0
  unfolding on_chunk
  on_chunk-IsBounded true st s v = v
  on_chunk-IsBounded false st s v =
      feed-IsBounded (record st { raw_head = keep_head st.raw_head s }) s
        (record {
          blocks_fit = v.blocks_fit;
          all_blocks = v.all_blocks;
          n_fits = v.n_fits;
          line_fits = v.line_fits;
          head_fits = length-keep_head st.raw_head s v.head_fits;
          reason_fits = v.reason_fits;
          all_in_range = v.all_in_range;
        })

-- The state that a turn begins with.
pub initial-IsBounded : IsBounded initial
initial-IsBounded = record {
  blocks_fit = omega arith;
  all_blocks = refl;
  n_fits = omega arith;
  line_fits = omega arith;
  head_fits = omega arith;
  reason_fits = omega arith;
  all_in_range = refl;
}
