-- ===== src/Tests/StreamTests.antt =====
-- main.c, "stream": runs and instances.
use sa.Prelude.{◌+◌, ◌≡◌, refl, false, [], ◌∷◌, ◌++◌, arith}
use sa.Prelude.Bytes.{Bytes, codes, equal, starts_with, c_string}
use sa.Prelude.Decimal.{read_decimal}
use sa.Json.Access.{find_field, get_text, get_number_value}
use sa.Json.Parser.{
  skip_ws, read_escape, read_char, read_chars, parse_string_raw, take_number, parse_number,
  parse_string, parse_value, parse,
}
use sa.Stream.State.{initial, block_at}
use sa.Stream.Event.{event_slot, handle_event}
use sa.Stream.Chunk.{is_data_line, payload, feed_byte, feed, on_chunk}
use sa.Stream.Bounds.{IsBounded}
use sa.Stream.Bounds.Body.{on_chunk-IsBounded, initial-IsBounded}
use sa.Stream.Chunking.{on_chunk-append}
use sa.Stream.Lines.{without_cr, between_lines, on_line, feed-line}
use sa.Tests.Integers.{integers}

abbrev delta_line : Bytes
delta_line =
    codes
      "data: {\"type\":\"content_block_delta\",\"index\":0,\"delta\":{\"type\":\"text_delta\",\"text\":\"hi\"}}"

-- The delta is shown, and appended to the block.
delta_runs :
    ◌≡◌ {A = Bytes × Bytes}
      (let r = feed integers false initial (delta_line ++ b'\n' ∷ []) in
        (r.1, (block_at r.0 0).text))
      (codes "hi", codes "hi")
unfolding feed feed_byte handle_event event_slot parse parse_value parse_string parse_number
    get_number_value parse_string_raw read_chars read_char read_escape take_number skip_ws
    starts_with c_string equal find_field get_text is_data_line payload read_decimal
delta_runs = refl

on_chunk-IsBounded_example : IsBounded (on_chunk integers false false initial delta_line).0
on_chunk-IsBounded_example =
    on_chunk-IsBounded integers false false initial delta_line initial-IsBounded

on_chunk-append_example : on_chunk integers false false initial (delta_line ++ b'\n' ∷ []) ≡ (
    let first = on_chunk integers false false initial delta_line in
    let second = on_chunk integers false false first.0 (b'\n' ∷ []) in
    (second.0, first.1 ++ second.1, first.2 + second.2))
on_chunk-append_example =
    on_chunk-append integers false initial delta_line (b'\n' ∷ []) (omega arith)

feed-line_example :
    feed integers false (between_lines initial) (delta_line ++ b'\n' ∷ [])
    ≡ on_line integers false (between_lines initial) (without_cr delta_line)
feed-line_example = feed-line integers false initial delta_line refl
