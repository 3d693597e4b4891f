-- ===== src/Http/Post.antt =====
-- main.c: `http_post_sse`. Opening the connection, with the handshake, is a parameter.
pub mod Answer
use sa.Prelude.{
  ℕ, zero, suc, ◌+◌, ◌-◌, Bool, true, false, not, Option, none, some, [], ◌++◌, ltb, leb,
  if◌then◌else◌, length, take,
}
use sa.Prelude.Bytes.{Bytes, codes}
use sa.Prelude.Int.{eqb_ℤ, ℤ, pos, negsuc}
use sa.Prelude.Decimal.{decimal, decimal_ℤ}
use sa.Json.Number.{Doubles}
use sa.Stream.State.{raw_head_size, initial, StreamState}
use sa.Tools.Write.{print_into}
use sa.Http.Url.{parse_url, Url}
use sa.Http.Tls.{Tls}
use sa.Http.Headers.{http_read_headers, Framing}
use sa.Http.Body.{http_stream_body, Ending, complete, broken, stopped, out_of_fuel}

-- What a call leaves: the stream state, what went to stdout, `*out_status`, and the return value.
pub record Post : Type 0 where
  pub state : StreamState
  pub out : Bytes
  pub status : ℤ
  pub code : ℤ

-- No answer.
abbrev pub no_answer : Post
no_answer = record { state = initial; out = []; status = pos 0; code = negsuc 0 }

-- The bytes of a request before its body.
unfoldable pub request_head : (path host api_key body : Bytes) → Bytes
request_head path host api_key body =
    codes "POST "
    ++ (path
        ++ (codes " HTTP/1.1\r\nHost: "
            ++ (host
                ++ (codes
                      "\r\nUser-Agent: sa/0.1\r\nContent-Type: application/json\r\nAccept: text/event-stream\r\nAnthropic-Version: 2023-06-01\r\nX-API-Key: "
                    ++ (api_key
                        ++ (codes "\r\nContent-Length: "
                            ++ (decimal (length body)
                                ++ codes "\r\nConnection: close\r\n\r\n")))))))

abbrev pub ending_code : Ending → ℤ
ending_code complete = pos 0
ending_code broken = negsuc 0
ending_code stopped = negsuc 1
ending_code out_of_fuel = negsuc 0

module _ (tls : Tls) (d : Doubles) (json : Bool) where
  open tls use {Conn, read, write_all, flush, shut, close}

  -- The start of an error's body. Each round takes a byte at least.
  unfoldable pub capture : (fuel : ℕ) → Conn → Bytes → Conn × Bytes
  capture zero c used = (c, used)
  capture (suc fuel) c used =
      let got = read c 512 in
      elim (ltb (length used + 1) raw_head_size) [
        | false ↦ (c, used)
        | true ↦ elim got.1 [
          | none ↦ (got.0, used)
          | some s ↦ capture fuel got.0 (used ++ take (raw_head_size - 1 - length used) s)
        ]
      ]

  -- An answer with another status than 200.
  unfoldable pub on_error : Conn → ℤ → Conn × Post
  on_error c status =
      let captured = capture raw_head_size c [] in
      (
        close (shut captured.0),
        record no_answer { state = record initial { raw_head = captured.1 }; status = status },
      )

  unfoldable pub on_body : (fuel : ℕ) → Conn → ℤ → Framing → Conn × Post
  on_body fuel c status f =
      let body =
        http_stream_body tls d json fuel f (record { conn = c; state = initial; out = [] }) in
      (
        close (shut body.0.conn),
        record {
          state = body.0.state;
          out = body.0.out;
          status = status;
          code = ending_code body.1;
        },
      )

  abbrev pub on_headers : (fuel : ℕ) → Conn × Option (ℤ × Framing) → Conn × Post
  on_headers fuel (c, none) = (close c, no_answer)
  on_headers fuel (c, some (status, f)) =
      if eqb_ℤ status (pos 200) then on_body fuel c status f else on_error c status

  -- The request is written, and the answer read.
  unfoldable pub exchange : (fuel : ℕ) → Conn → (head body : Bytes) → Conn × Post
  exchange fuel c head body =
      let sent = write_all c head in
      let posted = write_all sent.0 body in
      let flushed = flush posted.0 in
      if leb 4096 (length head)
      then (close c, no_answer)
      else if not sent.1
      then (close sent.0, no_answer)
      else if not posted.1
      then (close posted.0, no_answer)
      else if not flushed.1
      then (close flushed.0, no_answer)
      else on_headers fuel (http_read_headers tls flushed.0 8192)

  abbrev pub on_connect : (fuel : ℕ) → (head body : Bytes) → Conn × Bool → Conn × Post
  on_connect fuel head body (c, false) = (c, no_answer)
  on_connect fuel head body (c, true) = exchange fuel c head body

  -- `connect` is `tcp_connect` with the start of TLS.
  abbrev on_url :
      (connect : Conn → (host port : Bytes) → Conn × Bool) (fuel : ℕ)
      → Conn
      → (api_key body : Bytes) → Option Url
      → Conn × Post
  on_url connect fuel c api_key body none = (c, no_answer)
  on_url connect fuel c api_key body (some u) =
      on_connect fuel (request_head u.path u.host api_key body) body
        (connect c u.host (print_into 8 (decimal_ℤ u.port)))

  unfoldable pub http_post_sse :
      (atoi : Bytes → ℤ) (connect : Conn → (host port : Bytes) → Conn × Bool) (fuel : ℕ)
      → Conn
      → (url api_key body : Bytes) → Conn × Post
  http_post_sse atoi connect fuel c url api_key body =
      on_url connect fuel c api_key body (parse_url atoi url 256 1024)
