-- ===== src/Stream/Chunk.antt =====
-- main.c: `on_chunk`, which cuts the body into lines, and hands the payload of each `data:` line to
-- `handle_event`.
use sa.Prelude.{
  ℕ, ◌-◌, min, Bool, true, false, ◌&&◌, [], ◌∷◌, ◌++◌, ltb, leb, ◌==◌, if◌then◌else◌, length, take,
  drop,
}
use sa.Prelude.Bytes.{Bytes, codes, starts_with}
use sa.Config.{max_sse_line}
use sa.Json.Number.{Doubles}
use sa.Stream.State.{raw_head_size, StreamState}
use sa.Stream.Event.{handle_event}

-- `if (*p == ' ') p++`.
unfoldable pub skip_space : Bytes → Bytes
skip_space [] = []
skip_space (c ∷ s) = if c == b' ' then s else c ∷ s

-- `line.len > 5 && memcmp(line.data, "data:", 5) == 0`.
unfoldable pub is_data_line : Bytes → Bool
is_data_line l = ltb 5 (length l) && starts_with (codes "data:") l

unfoldable pub payload : Bytes → Bytes
unfolding skip_space
payload l = skip_space (drop 5 l)

-- The first bytes of the body, kept for messages about errors.
unfoldable pub keep_head : Bytes → Bytes → Bytes
keep_head head s =
    if ltb (length head) raw_head_size
    then head ++ take (min (length s) (raw_head_size - length head)) s
    else head

-- `buf_reset(&st->line)` behind a handler.
abbrev pub reset_line : StreamState × Bytes → StreamState × Bytes
reset_line r = (record (r.0) { line = [] }, r.1)

-- The rest of a run behind a step: what both write is written in turn.
abbrev pub then_write : Bytes → StreamState × Bytes → StreamState × Bytes
then_write out r = (r.0, out ++ r.1)

module _ (d : Doubles) (json : Bool) where
  -- The line that a newline ends.
  unfoldable pub end_line : StreamState → StreamState × Bytes
  end_line st =
      if st.line_dropped
      then (record st { line_dropped = false; line = [] }, [])
      else if is_data_line st.line
      then reset_line (handle_event d json st (payload st.line))
      else (record st { line = [] }, [])

  unfoldable pub feed_byte : StreamState → ℕ → StreamState × Bytes
  unfolding end_line
  feed_byte st c =
      if c == b'\n'
      then end_line st
      else if c == b'\r'
      then (st, [])
      else if leb max_sse_line (length st.line)
      then (record st { line_dropped = true }, [])
      else (record st { line = st.line ++ c ∷ [] }, [])

  -- The `for` loop over the bytes.
  unfoldable pub feed : StreamState → Bytes → StreamState × Bytes
  feed st [] = (st, [])
  feed st (c ∷ s) = let next = feed_byte st c in then_write next.1 (feed next.0 s)

  -- The third part is the return value. The flag is `g_interrupt` at the call.
  unfoldable pub on_chunk : Bool → StreamState → Bytes → StreamState × Bytes × ℕ
  unfolding feed keep_head
  on_chunk interrupted st s =
      if interrupted
      then (st, [], 0)
      else let fed = feed (record st { raw_head = keep_head st.raw_head s }) s in
        (fed.0, fed.1, length s)
