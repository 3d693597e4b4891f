-- ===== src/Tests/HttpTests.antt =====
-- main.c: the HTTP client: runs and instances.
use sa.Prelude.{
  ◌≡◌, refl, none, some, arith, true, false, List, [], ◌∷◌, ◌++◌, All, Bool, not, ◌&&◌, &&-true,
}
use sa.Prelude.Bytes.{Bytes, codes, starts_with, equal, c_string}
use sa.Prelude.Int.{ℤ, pos, negsuc}
use sa.Prelude.Decimal.{read_decimal}
use sa.Prelude.Scan.{
  skip_spaces, digit_value, read_digits, read_number, strtol, lower, starts_with_nocase,
}
use sa.Stream.State.{initial}
use sa.Stream.Chunk.{on_chunk}
use sa.Stream.Bounds.Body.{initial-IsBounded}
use sa.Tools.Edit.{strstr}
use sa.Http.Headers.{blank_line, read_line, read_lines, scan_status, parse_headers, ends_with}
use sa.Http.Body.{http_stream_body, complete, Receiving}
use sa.Http.Body.Until.{EndsAt}
use sa.Http.Body.Chunks.{IsSizeLine, IsChunk, encoded, http_stream_body-encoded}
use sa.Http.Post.{exchange}
use sa.Http.Post.Answer.{exchange-encoded}
use sa.Tests.Integers.{integers}
use sa.Tests.Wire.{wire, wire_delivery, wire_quiet}
use sa.Http.Url.{strchr, before, with_port, parse_url}
use sa.Http.Url.Parts.{parse_url_lem}

-- `atoi` on digits.
abbrev atoi : Bytes → ℤ
atoi s = pos (read_decimal 0 s)

parse_runs :
    (parse_url atoi (codes "https://api.x/v1") 10 10
      ≡ some (record { host = codes "api.x"; port = pos 443; path = codes "/v1" }))
    × (parse_url atoi (codes "https://api.x:0") 10 10 ≡ none)
    × (parse_url atoi (codes "http://api.x") 10 10 ≡ none)
unfolding parse_url with_port strchr before starts_with read_decimal
parse_runs = (refl, refl, refl)

parse_url_lem_example :
    parse_url atoi (codes "https://a:80/v1") 10 10
    ≡ some (record { host = codes "a"; port = pos 80; path = codes "/v1" })
unfolding read_decimal
parse_url_lem_example =
    parse_url_lem atoi (codes "a") (codes "80") (codes "v1") 80 10 10 refl refl refl (omega arith)
      (omega arith) (omega arith) (omega arith)

abbrev two_chunks : List (Bytes × Bytes)
two_chunks = (codes "5", codes "data:") ∷ (codes "3;x=y", codes " {}") ∷ []

abbrev start : Receiving wire integers false
start = record { conn = encoded two_chunks (codes "0"); state = initial; out = [] }

two_chunks-IsChunk : All IsChunk two_chunks
unfolding strtol read_number skip_spaces read_digits digit_value
two_chunks-IsChunk = (
  ((refl, refl, omega arith, refl), omega arith),
  (((refl, refl, omega arith, refl), omega arith), tt),
)

last-IsSizeLine : IsSizeLine (codes "0") 0
unfolding strtol read_number skip_spaces read_digits digit_value
last-IsSizeLine = (refl, refl, omega arith, refl)

-- The reads give three bytes at most, across the ends of the lines, and yet the body is whole.
http_stream_body-encoded_example :
    let e =
      http_stream_body wire integers false 3 (record { chunked = true; clen = negsuc 0 }) start in
    let whole = on_chunk integers false false initial (codes "data: {}") in
    (e.1 ≡ complete) × (e.0.state ≡ whole.0) × (e.0.out ≡ whole.1)
http_stream_body-encoded_example =
    http_stream_body-encoded wire wire_delivery integers false wire_quiet
      (record { chunked = true; clen = negsuc 0 }) two_chunks (codes "0") 3 start refl
      two_chunks-IsChunk last-IsSizeLine (omega arith) initial-IsBounded refl

abbrev block : Bytes
block = codes "HTTP/1.1 200 OK\r\nTransfer-Encoding: chunked\r\n\r\n"

-- The test that `EndsAt` states.
abbrev ends_at : (end used t : Bytes) → Bool
ends_at end used [] = false
ends_at end used (x ∷ []) = ends_with end (used ++ x ∷ [])
ends_at end used (x ∷ y ∷ t) =
    not (ends_with end (used ++ x ∷ [])) && ends_at end (used ++ x ∷ []) (y ∷ t)

EndsAt-ends_at : (end used t : Bytes) → ends_at end used t ≡ true → EndsAt end used t
EndsAt-ends_at end used [] h = absurd (ground arith)
EndsAt-ends_at end used (x ∷ []) h = h
EndsAt-ends_at end used (x ∷ y ∷ t) h =
    let both =
      &&-true (not (ends_with end (used ++ x ∷ []))) (ends_at end (used ++ x ∷ []) (y ∷ t)) h in
    (
      is_false (ends_with end (used ++ x ∷ [])) both.0,
      EndsAt-ends_at end (used ++ x ∷ []) (y ∷ t) both.1,
    )
  where
    is_false : (b : Bool) → not b ≡ true → b ≡ false
    is_false b e = ground arith

block-ends_at : ends_at blank_line [] block ≡ true
unfolding equal
block-ends_at = refl

block-EndsAt : EndsAt blank_line [] block
block-EndsAt = EndsAt-ends_at blank_line [] block block-ends_at

block_lem : parse_headers block ≡ some (pos 200, record { chunked = true; clen = negsuc 0 })
unfolding parse_headers c_string scan_status read_number read_digits skip_spaces digit_value
    starts_with read_lines strstr read_line starts_with_nocase lower
block_lem = refl

exchange-encoded_example :
    (exchange wire integers false 3
      (block ++ encoded two_chunks (codes "0"))
      (codes "POST")
      (codes "{}")).1
    ≡ (let whole = on_chunk integers false false initial (codes "data: {}") in
        record { state = whole.0; out = whole.1; status = pos 200; code = pos 0 })
exchange-encoded_example =
    exchange-encoded wire wire_delivery integers false wire_quiet 3
      (block ++ encoded two_chunks (codes "0")) (codes "POST") (codes "{}") block (codes "0")
      (record { chunked = true; clen = negsuc 0 }) two_chunks (omega arith) refl refl refl refl
      block-EndsAt (omega arith) block_lem refl two_chunks-IsChunk last-IsSizeLine (omega arith)
