-- ===== src/Http/Body/Chunks.antt =====
-- main.c: a chunked body, read off the connection in whatever pieces, is handed on as its chunks say.
use sa.Prelude.{
  ℕ, ◌≤◌, ◌<◌, ◌≡◌, refl, Bool, true, false, List, [], ◌∷◌, ◌++◌, arith, length, zero, suc, sym,
  ◌∙◌, not, append_assoc, ◌==◌, All, length-append, every-append, ap, Option, some,
}
use sa.Prelude.Bytes.{Bytes, c_string, is_text, c_string-is_text}
use sa.Prelude.Int.{pos}
use sa.Prelude.Scan.{skip_spaces, read_number, strtol}
use sa.Json.Number.{Doubles}
use sa.Stream.Chunk.{on_chunk}
use sa.Stream.Bounds.{IsBounded}
use sa.Http.Tls.{Tls, Delivery}
use sa.Http.Url.Parts.{lacks}
use sa.Http.Headers.{crlf, read_until, Framing}
use sa.Http.Body.{
  on_conn, skip_end, on_size, read_chunks, complete, Receiving, and_then, read_chunk, on_size_line,
  Ending, http_stream_body,
}
use sa.Http.Body.Until.{EndsAt, EndsAt-line, HasRead, read_until-HasRead}
use sa.Http.Body.Data.{Took, Took-nil, Took-append, IsBounded-Took, read_chunk-HasTaken}

-- A size line, without its end: a line of text that fits and reads as the size, with or without a
-- chunk extension.
abbrev pub IsSizeLine : Bytes → ℕ → Type 0
IsSizeLine line n =
    (lacks b'\n' line ≡ true)
    × (is_text line ≡ true)
    × (length line ≤ 28)
    × (strtol 16 (line ++ crlf) ≡ pos n)

-- A size line and the bytes that it announces.
abbrev pub IsChunk : Bytes × Bytes → Type 0
IsChunk c = IsSizeLine c.0 (length c.1) × (0 < length c.1)

-- What the server sends.
abbrev pub encoded : List (Bytes × Bytes) → (last : Bytes) → Bytes
encoded [] last = (last ++ crlf) ++ crlf
encoded (c ∷ cs) last = (c.0 ++ crlf) ++ (c.1 ++ (crlf ++ encoded cs last))

abbrev pub bodies : List (Bytes × Bytes) → Bytes
bodies [] = []
bodies (c ∷ cs) = c.1 ++ bodies cs

-- What a read of two bytes may leave of CR LF.
abbrev lead_of : Bool → Bytes
lead_of false = []
lead_of true = b'\n' ∷ []

two_bytes :
    (s p rest : Bytes)
    → 0 < length s
    → length s ≤ 2
    → crlf ++ rest ≡ s ++ p
    → (b : Bool) × (p ≡ lead_of b ++ rest)
two_bytes [] p rest h k e = absurd (omega arith)
two_bytes (c ∷ []) p rest h k e = (true, ground arith)
two_bytes (c ∷ c' ∷ []) p rest h k e = (false, ground arith)
two_bytes (c ∷ c' ∷ c'' ∷ s) p rest h k e = absurd (omega arith)

EndsAt-lead :
    (b : Bool) (line : Bytes)
    → lacks b'\n' line ≡ true
    → EndsAt crlf [] (lead_of b ++ (line ++ crlf))
EndsAt-lead false line h = EndsAt-line [] line h
EndsAt-lead true [] h = (refl, EndsAt-line (b'\n' ∷ []) [] h)
EndsAt-lead true (c ∷ line) h = (refl, EndsAt-line (b'\n' ∷ []) (c ∷ line) h)

strtol-lead : (b : Bool) (s : Bytes) → strtol 16 (lead_of b ++ s) ≡ strtol 16 s
unfolding strtol read_number skip_spaces
strtol-lead false s = refl
strtol-lead true s = refl

is_text-line : (line : Bytes) → is_text line ≡ true → is_text (line ++ crlf) ≡ true
is_text-line line h = rw (every-append (λ c. not (c == 0)) line crlf, h)

is_text-lead :
    (b : Bool) (line : Bytes) → is_text line ≡ true → is_text (lead_of b ++ (line ++ crlf)) ≡ true
is_text-lead false line h = is_text-line line h
is_text-lead true line h = is_text-line line h

-- The size that such a line gives.
size_of :
    (b : Bool) (line : Bytes) (n : ℕ)
    → IsSizeLine line n
    → strtol 16 (c_string (lead_of b ++ (line ++ crlf))) ≡ pos n
size_of b line n (h, text, k, e) =
    rw
      (
        c_string-is_text (lead_of b ++ (line ++ crlf)) (is_text-lead b line text),
        strtol-lead b (line ++ crlf),
      )
      e

module _ (tls : Tls) (dl : Delivery tls) (d : Doubles) (json : Bool)
    (quiet : (c : tls.Conn) → tls.is_interrupted c ≡ false) where
  open tls use {Conn, is_interrupted, read}
  open dl use {pending, read_some}

  -- The two bytes behind a chunk are taken, or one of them.
  skip_end_lem :
      (r : Receiving tls d json) (rest : Bytes)
      → pending r.conn ≡ crlf ++ rest
      → (b : Bool) × (c : Conn) × (pending c ≡ lead_of b ++ rest)
        × (skip_end tls d json r ≡ (on_conn tls d json r c, complete))
  unfolding skip_end
  skip_end_lem r rest here =
      let some_pending : 0 < length (pending r.conn) = rw here (omega arith) in
      let got = read_some r.conn 2 (omega arith) some_pending in
      let left = two_bytes got.0 (pending (read r.conn 2).0) rest got.2 got.3 (sym here ∙ got.4) in
      (left.0, (read r.conn 2).0, left.1, rw (skip_end, got.1))

  -- A size line is read.
  size_line-HasRead :
      (b : Bool) (line rest : Bytes) (n : ℕ) (c : Conn)
      → IsSizeLine line n
      → pending c ≡ lead_of b ++ ((line ++ crlf) ++ rest)
      → HasRead tls dl (lead_of b ++ (line ++ crlf)) rest (read_until tls crlf 31 c [])
  size_line-HasRead b line rest n c h here =
      read_until-HasRead tls dl crlf [] (lead_of b ++ (line ++ crlf)) rest 31 c
        (EndsAt-lead b line h.0)
        (omega (
          arith,
          h.2,
          length-append (lead_of b) (line ++ crlf),
          length-append line crlf,
          length_lead b,
        ))
        (here ∙ sym (append_assoc (lead_of b) (line ++ crlf) rest))
    where
      length_lead : (x : Bool) → length (lead_of x) ≤ 1
      length_lead true = omega arith
      length_lead false = omega arith

  on_size_line_lem :
      (next : Receiving tls d json → Receiving tls d json × Ending) (r : Receiving tls d json)
      (got : Conn × Option (Bytes × Bool)) (line : Bytes × Bool)
      → got.1 ≡ some line
      → on_size_line tls d json next r got
        ≡ on_size tls d json next (on_conn tls d json r (got.0)) (strtol 16 (c_string line.0))
  on_size_line_lem next r (c, o) line h = rw h

  on_size-some :
      (next : Receiving tls d json → Receiving tls d json × Ending) (r : Receiving tls d json)
      (n : ℕ)
      → 0 < n
      → on_size tls d json next r (pos n)
        ≡ and_then tls d json next
            (and_then tls d json (skip_end tls d json) (read_chunk tls d json n n r))
  on_size-some next r zero h = absurd (omega arith)
  on_size-some next r (suc n) h = refl

  and_then-complete :
      (next : Receiving tls d json → Receiving tls d json × Ending)
      (e : Receiving tls d json × Ending)
      → e.1 ≡ complete
      → and_then tls d json next e ≡ next e.0
  and_then-complete next (r, how) h = rw h

  -- One round of the loop over the chunks, where a size line is pending.
  read_chunks_lem :
      (fuel n : ℕ) (b : Bool) (line rest : Bytes) (r : Receiving tls d json)
      → IsSizeLine line n
      → pending r.conn ≡ lead_of b ++ ((line ++ crlf) ++ rest)
      → (c : Conn) × (pending c ≡ rest)
        × (read_chunks tls d json (suc fuel) r
            ≡ on_size tls d json (read_chunks tls d json fuel) (on_conn tls d json r c) (pos n))
  unfolding read_chunks
  read_chunks_lem fuel n b line rest r h here =
      let got = size_line-HasRead b line rest n r.conn h here in
      (
        (read_until tls crlf 31 r.conn []).0,
        got.1,
        rw (quiet r.conn) (
            on_size_line_lem (read_chunks tls d json fuel) r (read_until tls crlf 31 r.conn [])
              (lead_of b ++ (line ++ crlf), true) (got.0)
            ∙ ap
                (on_size tls d json (read_chunks tls d json fuel)
                  (on_conn tls d json r (read_until tls crlf 31 r.conn []).0))
                (size_of b line n h)),
      )

  read_chunks-bodies :
      (cs : List (Bytes × Bytes)) (last : Bytes) (fuel : ℕ) (b : Bool) (r : Receiving tls d json)
      → All IsChunk cs
      → IsSizeLine last 0
      → length cs < fuel
      → IsBounded r.state
      → pending r.conn ≡ lead_of b ++ encoded cs last
      → let e = read_chunks tls d json fuel r in
        (e.1 ≡ complete) × Took tls dl d json quiet r (bodies cs) e.0
  read_chunks-bodies cs last zero b r hs h enough v here = absurd (omega arith)
  read_chunks-bodies [] last (suc fuel) b r hs h enough v here =
      let m = read_chunks_lem fuel 0 b last crlf r h here in
      rw (m.2) (refl, Took-nil tls dl d json quiet r)
  read_chunks-bodies (c ∷ cs) last (suc fuel) b r hs h enough v here =
      let tail = crlf ++ encoded cs last in
      let m = read_chunks_lem fuel (length c.1) b c.0 (c.1 ++ tail) r (hs.0.0) here in
      let at = on_conn tls d json r (m.0) in
      let next = read_chunks tls d json fuel in
      let taken = read_chunk tls d json (length c.1) (length c.1) at in
      let took =
        read_chunk-HasTaken tls dl d json quiet (length c.1) (length c.1) at c.1 tail v refl
          (omega arith) (m.1) in
      let skipped = skip_end_lem taken.0 (encoded cs last) (took.1) in
      let behind = on_conn tls d json taken.0 (skipped.1) in
      let later =
        read_chunks-bodies cs last fuel (skipped.0) behind hs.1 h (omega arith)
          (IsBounded-Took tls dl d json quiet at taken.0 c.1 v took.2) (skipped.2) in
      let whole : read_chunks tls d json (suc fuel) r ≡ next behind =
        m.2
        ∙ (on_size-some next at (length c.1) (hs.0.1)
            ∙ (ap (and_then tls d json next)
                (and_then-complete (skip_end tls d json) taken took.0 ∙ skipped.3))) in
      rw whole (
        later.0,
        Took-append tls dl d json quiet r taken.0 (next behind).0 c.1 (bodies cs) v took.2 later.1,
      )

  -- A chunked body, complete with its last chunk and with size lines of at most 28 bytes, whose reads
  -- give any pieces of what is pending, leaves a stream within its bounds as one call of the callback
  -- on the chunks' data does; there is no interrupt, and one round for each chunk and one more is fuel
  -- enough.
  pub http_stream_body-encoded :
      (f : Framing) (cs : List (Bytes × Bytes)) (last : Bytes) (fuel : ℕ) (r : Receiving tls d json)
      → f.chunked ≡ true
      → All IsChunk cs
      → IsSizeLine last 0
      → length cs < fuel
      → IsBounded r.state
      → pending r.conn ≡ encoded cs last
      → let e = http_stream_body tls d json fuel f r in
        let whole = on_chunk d json false r.state (bodies cs) in
        (e.1 ≡ complete) × (e.0.state ≡ whole.0) × (e.0.out ≡ r.out ++ whole.1)
  unfolding http_stream_body
  http_stream_body-encoded f cs last fuel r framed hs h enough v here =
      let e = read_chunks-bodies cs last fuel false r hs h enough v here in
      rw framed (e.0, e.1.0, e.1.1)
