-- ===== src/Http/Headers.antt =====
-- main.c: `http_read_headers`.
use sa.Prelude.{
  ℕ, zero, suc, ◌+◌, ◌-◌, Bool, true, false, ◌&&◌, Option, none, some, [], ◌∷◌, ◌++◌, leb,
  if◌then◌else◌, length, drop,
}
use sa.Prelude.Bytes.{Bytes, codes, equal, starts_with, c_string}
use sa.Prelude.Int.{ℤ, negsuc}
use sa.Prelude.Scan.{read_number, strtol, starts_with_nocase}
use sa.Tools.Edit.{strstr}
use sa.Http.Tls.{Tls}

abbrev pub crlf : Bytes
crlf = b'\r' ∷ b'\n' ∷ []

abbrev pub blank_line : Bytes
blank_line = crlf ++ crlf

-- `used >= 4 && memcmp(hdr + used - 4, "\r\n\r\n", 4) == 0`, and the like for other ends.
abbrev pub ends_with : Bytes → Bytes → Bool
ends_with end s = leb (length end) (length s) && equal (drop (length s - length end) s) end

-- `*chunked` and `*clen`.
pub record Framing : Type 0 where
  pub chunked : Bool
  pub clen : ℤ

abbrev no_framing : Framing
no_framing = record { chunked = false; clen = negsuc 0 }

abbrev pub occurs : Bytes → Bytes → Bool
occurs needle s = elim (strstr needle s) [ none ↦ false | some i ↦ true ]

-- One header line, at the front of the rest of the block.
unfoldable pub read_line : Framing → Bytes → Framing
read_line f line =
    if starts_with_nocase (codes "transfer-encoding:") line
    then if occurs (codes "chunked") line then record f { chunked = true } else f
    else if starts_with_nocase (codes "content-length:") line
    then record f { clen = strtol 10 (drop 15 line) }
    else f

abbrev after_line : Bytes → ℕ → Bytes
after_line line i = drop (i + 2) line

-- The loop over the lines. Each has two bytes at least, so that the length of the block is fuel
-- enough.
unfoldable pub read_lines : ℕ → Framing → Bytes → Framing
read_lines zero f line = f
read_lines (suc fuel) f line = elim (strstr crlf line) [
  | none ↦ f
  | some i ↦ read_lines fuel (read_line f line) (after_line line i)
]

abbrev number_of : Option (ℤ × Bytes) → Option ℤ
number_of none = none
number_of (some r) = some r.0

abbrev second_number : Option (ℤ × Bytes) → Option ℤ
second_number none = none
second_number (some r) = number_of (read_number 10 r.1)

-- `sscanf(hdr, "HTTP/1.%*d %d", status)`.
unfoldable pub scan_status : Bytes → Option ℤ
scan_status hdr =
    if starts_with (codes "HTTP/1.") hdr then second_number (read_number 10 (drop 7 hdr)) else none

abbrev with_framing : Bytes → Option ℤ → Option (ℤ × Framing)
with_framing hdr none = none
with_framing hdr (some status) = some (status, read_lines (length hdr) no_framing hdr)

-- What follows the loop that reads.
unfoldable pub parse_headers : Bytes → Option (ℤ × Framing)
parse_headers block = let hdr = c_string block in with_framing hdr (scan_status hdr)

module _ (tls : Tls) where
  open tls use {Conn, read}

  abbrev pub headers_of : Conn × Option Bytes → Conn × Option (ℤ × Framing)
  headers_of (c, none) = (c, none)
  headers_of (c, some block) = (c, parse_headers block)

  -- The bytes up to an end, read one by one, where there is room for `left` more. The second part
  -- is what was read and whether the end was met, or none where the read fails.
  unfoldable pub read_until : (end : Bytes) (left : ℕ) → Conn → Bytes → Conn × Option (Bytes × Bool)
  read_until end zero c used = (c, some (used, false))
  read_until end (suc left) c used =
      let got = read c 1 in
      elim got.1 [
        | none ↦ (got.0, none)
        | some s ↦ elim (ends_with end (used ++ s)) [
          | true ↦ (got.0, some (used ++ s, true))
          | false ↦ read_until end left got.0 (used ++ s)
        ]
      ]

  abbrev pub block_of : Conn × Option (Bytes × Bool) → Conn × Option Bytes
  block_of (c, none) = (c, none)
  block_of (c, some (s, false)) = (c, none)
  block_of (c, some (s, true)) = (c, some s)

  -- The status and the framing, or none where C returns -1. The array has `size` bytes.
  unfoldable pub http_read_headers : Conn → (size : ℕ) → Conn × Option (ℤ × Framing)
  http_read_headers c size = headers_of (block_of (read_until blank_line (size - 1) c []))
