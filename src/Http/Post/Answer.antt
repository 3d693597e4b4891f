-- ===== src/Http/Post/Answer.antt =====
-- main.c: `http_post_sse` on an answer of status 200: the header block ends where it ends, and the
-- body is handed on whole.
use sa.Prelude.{
  ℕ, ◌-◌, ◌<◌, ◌≡◌, refl, Bool, Option, [], ◌++◌, arith, length, true, false, some, List, leb, All,
  ◌∙◌,
}
use sa.Prelude.Bytes.{Bytes}
use sa.Prelude.Int.{pos, ℤ}
use sa.Json.Number.{Doubles}
use sa.Stream.State.{initial, StreamState}
use sa.Stream.Chunk.{on_chunk}
use sa.Stream.Bounds.Body.{initial-IsBounded}
use sa.Http.Tls.{Tls, Delivery}
use sa.Http.Headers.{
  blank_line, parse_headers, read_until, http_read_headers, headers_of, block_of, Framing,
}
use sa.Http.Body.{Receiving, http_stream_body, Ending, complete}
use sa.Http.Body.Until.{EndsAt, HasRead, read_until-HasRead}
use sa.Http.Body.Chunks.{IsSizeLine, IsChunk, encoded, bodies, http_stream_body-encoded}
use sa.Http.Post.{on_body, exchange, ending_code, on_headers, Post}

module _ (tls : Tls) (dl : Delivery tls) where
  open tls use {Conn}
  open dl use {pending}

  block_of-HasRead :
      (block rest : Bytes) (got : Conn × Option (Bytes × Bool))
      → HasRead tls dl block rest got
      → headers_of tls (block_of tls got) ≡ (got.0, parse_headers block)
  block_of-HasRead block rest (c, o) h = rw (h.0)

  -- The block up to the first blank line is read, byte by byte, and not a byte more.
  pub http_read_headers-EndsAt :
      (c : Conn) (block rest : Bytes) (size : ℕ)
      → EndsAt blank_line [] block
      → length block < size
      → pending c ≡ block ++ rest
      → ((http_read_headers tls c size).1 ≡ parse_headers block)
        × (pending (http_read_headers tls c size).0 ≡ rest)
  unfolding http_read_headers
  http_read_headers-EndsAt c block rest size h fits here =
      let got =
        read_until-HasRead tls dl blank_line [] block rest (size - 1) c h (omega arith) here in
      rw (block_of-HasRead block rest (read_until tls blank_line (size - 1) c []) got) (refl, got.1)

module _ (tls : Tls) (dl : Delivery tls) (d : Doubles) (json : Bool)
    (quiet : (c : tls.Conn) → tls.is_interrupted c ≡ false) where
  open tls use {Conn, write_all, flush}
  open dl use {pending}

  on_headers-answer :
      (fuel : ℕ) (got : Conn × Option (ℤ × Framing)) (f : Framing)
      → got.1 ≡ some (pos 200, f)
      → (on_headers tls d json fuel got).1 ≡ (on_body tls d json fuel got.0 (pos 200) f).1
  on_headers-answer fuel (c, o) f h = rw h

  answer_same :
      (e : Receiving tls d json × Ending) (whole : StreamState × Bytes × ℕ)
      → e.1 ≡ complete
      → e.0.state ≡ whole.0
      → e.0.out ≡ whole.1
      → ◌≡◌ {A = Post}
          (record { state = e.0.state; out = e.0.out; status = pos 200; code = ending_code e.1 })
          (record { state = whole.0; out = whole.1; status = pos 200; code = pos 0 })
  answer_same e whole h k l = rw (h, k, l)

  -- An exchange that is never interrupted, on a connection whose reads give any pieces of what is
  -- pending, whose request goes out (a head below 4096 bytes, and the
  -- writes and the flush succeed), and whose answer is a header block below 8192 bytes, of status 200,
  -- that announces chunks, and then the chunks, each with a size line of at most 28 bytes that says
  -- its size: the stream is left as one call of the callback on the chunks' data leaves it, and the
  -- return value is 0. One round for each chunk and one more is fuel enough.
  pub exchange-encoded :
      (fuel : ℕ) (c : Conn) (head body block last : Bytes) (f : Framing) (cs : List (Bytes × Bytes))
      → length head < 4096
      → (write_all c head).1 ≡ true
      → (write_all (write_all c head).0 body).1 ≡ true
      → (flush (write_all (write_all c head).0 body).0).1 ≡ true
      → pending (flush (write_all (write_all c head).0 body).0).0 ≡ block ++ encoded cs last
      → EndsAt blank_line [] block
      → length block < 8192
      → parse_headers block ≡ some (pos 200, f)
      → f.chunked ≡ true
      → All IsChunk cs
      → IsSizeLine last 0
      → length cs < fuel
      → (exchange tls d json fuel c head body).1 ≡ (
          let whole = on_chunk d json false initial (bodies cs) in
          record { state = whole.0; out = whole.1; status = pos 200; code = pos 0 })
  unfolding exchange on_body
  exchange-encoded fuel c head body block last f cs short sent posted flushed here ends fits parsed
        framed hs h enough =
      let at = (flush (write_all (write_all c head).0 body).0).0 in
      let read_block =
        http_read_headers-EndsAt tls dl at block (encoded cs last) 8192 ends fits here in
      let start : Receiving tls d json = record {
        conn = (http_read_headers tls at 8192).0;
        state = initial;
        out = [];
      } in
      let done =
        http_stream_body-encoded tls dl d json quiet f cs last fuel start framed hs h enough
          initial-IsBounded (read_block.1) in
      let room : leb 4096 (length head) ≡ false = ground arith in
      rw (room, sent, posted, flushed)
        (on_headers-answer fuel (http_read_headers tls at 8192) f (read_block.0 ∙ parsed)
          ∙ answer_same (http_stream_body tls d json fuel f start)
              (on_chunk d json false initial (bodies cs)) (done.0) (done.1) (done.2))
