-- ===== src/Http/Body.antt =====
-- main.c: `http_stream_body`: the body is read piece by piece and handed to `on_chunk`.
pub mod Until
pub mod Data
pub mod Chunks
use sa.Prelude.{
  ℕ, zero, suc, ◌+◌, ◌-◌, min, Bool, true, false, ◌&&◌, Option, none, some, [], ◌++◌, ◌==◌,
  if◌then◌else◌, length,
}
use sa.Prelude.Bytes.{Bytes, c_string}
use sa.Prelude.Int.{leb_ℤ, ℤ, pos, negsuc}
use sa.Prelude.Scan.{strtol}
use sa.Json.Number.{Doubles}
use sa.Stream.State.{StreamState}
use sa.Stream.Chunk.{on_chunk}
use sa.Http.Tls.{Tls}
use sa.Http.Headers.{crlf, read_until, Framing}

-- The return values 0, -1 and -2; and that the loop, which has no bound of its own, was given too
-- few rounds.
pub data Ending : Type 0 where
  complete : Ending
  broken : Ending
  stopped : Ending
  out_of_fuel : Ending

abbrev pub chunk_size : ℕ
chunk_size = 4096

module _ (tls : Tls) (d : Doubles) (json : Bool) where
  open tls use {Conn, is_interrupted, read}

  -- The connection, the state behind `userdata` and what went to stdout.
  pub record Receiving : Type 0 where
    pub conn : Conn
    pub state : StreamState
    pub out : Bytes

  abbrev pub on_conn : Receiving → Conn → Receiving
  on_conn r c = record r { conn = c }

  -- `cb(buf, 1, r, userdata)`, and whether it takes all the bytes.
  unfoldable pub call_back : Receiving → Bytes → Receiving × Bool
  call_back r s =
      let called = on_chunk d json (is_interrupted r.conn) r.state s in
      (record r { state = called.0; out = r.out ++ called.1 }, called.2 == length s)

  -- How a loop goes on behind a step.
  abbrev pub and_then : (Receiving → Receiving × Ending) → Receiving × Ending → Receiving × Ending
  and_then next (r, complete) = next r
  and_then next (r, broken) = (r, broken)
  and_then next (r, stopped) = (r, stopped)
  and_then next (r, out_of_fuel) = (r, out_of_fuel)

  -- The loop over the data of one chunk. Each round takes a byte at least.
  unfoldable pub read_chunk : (fuel remaining : ℕ) → Receiving → Receiving × Ending
  read_chunk fuel zero r = (r, complete)
  read_chunk zero (suc remaining) r = (r, out_of_fuel)
  read_chunk (suc fuel) (suc remaining) r =
      let got = read r.conn (min (suc remaining) chunk_size) in
      if is_interrupted r.conn then (r, stopped) else elim got.1 [
        | none ↦ (on_conn r got.0, broken)
        | some s ↦
            let called = call_back (on_conn r got.0) s in
            elim called.1 [
              | false ↦ (called.0, broken)
              | true ↦ read_chunk fuel (suc remaining - length s) called.0
            ]
      ]

  -- The two bytes behind a chunk.
  unfoldable pub skip_end : Receiving → Receiving × Ending
  skip_end r =
      let got = read r.conn 2 in
      elim got.1 [ none ↦ (on_conn r got.0, broken) | some s ↦ (on_conn r got.0, complete) ]

  -- What is done with the size of a chunk.
  abbrev pub on_size : (next : Receiving → Receiving × Ending) → Receiving → ℤ → Receiving × Ending
  on_size next r (negsuc n) = (r, broken)
  on_size next r (pos zero) = (on_conn r (read r.conn 2).0, complete)
  on_size next r (pos (suc n)) = and_then next (and_then skip_end (read_chunk (suc n) (suc n) r))

  abbrev pub on_size_line :
      (next : Receiving → Receiving × Ending)
      → Receiving
      → Conn × Option (Bytes × Bool)
      → Receiving × Ending
  on_size_line next r (c, none) = (on_conn r c, broken)
  on_size_line next r (c, some line) = on_size next (on_conn r c) (strtol 16 (c_string line.0))

  -- The loop over the chunks. The size line has 31 bytes at most.
  unfoldable pub read_chunks : ℕ → Receiving → Receiving × Ending
  read_chunks zero r = (r, out_of_fuel)
  read_chunks (suc fuel) r =
      if is_interrupted r.conn
      then (r, stopped)
      else on_size_line (read_chunks fuel) r (read_until tls crlf 31 r.conn [])

  abbrev pub reached : ℤ → ℕ → Bool
  reached clen total = leb_ℤ (pos 0) clen && leb_ℤ clen (pos total)

  -- The loop over a body that is not chunked.
  unfoldable pub read_plain : ℕ → ℤ → ℕ → Receiving → Receiving × Ending
  read_plain zero clen total r = (r, out_of_fuel)
  read_plain (suc fuel) clen total r =
      let got = read r.conn chunk_size in
      if is_interrupted r.conn then (r, stopped) else elim got.1 [
        | none ↦ (on_conn r got.0, broken)
        | some s ↦
            let called = call_back (on_conn r got.0) s in
            elim called.1 [
              | false ↦ (called.0, broken)
              | true ↦ elim (reached clen (total + length s)) [
                | true ↦ (called.0, complete)
                | false ↦ read_plain fuel clen (total + length s) called.0
              ]
            ]
      ]

  unfoldable pub http_stream_body : (fuel : ℕ) → Framing → Receiving → Receiving × Ending
  http_stream_body fuel f r = if f.chunked then read_chunks fuel r else read_plain fuel f.clen 0 r
