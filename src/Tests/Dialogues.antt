-- ===== src/Tests/Dialogues.antt =====
-- Tests of a connection against the abstract map.
use memlane.Arena.{Arena}
use memlane.Hashmap.Invariant.{AbstractMap}
use memlane.Hashmap.Run.{Holds}
use memlane.Prelude.{◌≡◌, refl, inl, Bytes, codes, ◌++◌, bytes_eq, arith}
use memlane.Resp.Command.{extract_command, extract_args, extract_name, with_args}
use memlane.Resp.{
  parse, parse_with, parse_items, parse_array, array_body, parse_bulk_string, bulk_body,
  parse_int_line, parse_line, line_at, utf8_line, int_or, find_crlf, unknown_type,
}
use memlane.Server.Calls.{Dialogue}
use memlane.Server.Connection.{serve_chunk}
use memlane.Server.Reading.{malformed, Reading, at_value, at_malformed, ended_with}
use memlane.Server.Refine.Session.{AllRequestsUsed, serve_chunk-Dialogue}
use memlane.Tests.Methods.{ascii, each_noon, cut}
use memlane.Tests.Samples.{one_entry, Sample, Sample-Separates, one-Holds}
use memlane.Tests.Streams.{asks}
use memlane.Tests.Wire.{small}
use memlane.Text.{from_utf8, is_utf8, utf8_from, first_byte, parse_i64, scan_some, scan_digits}

-- The rest of a command, and a byte that begins no value.
abbrev bad_tail : Bytes
bad_tail = codes "CR\r\n$2\r\nmq\r\n?"

abbrev not_a_type : Bytes
not_a_type = codes "Unknown RESP type byte: 0x3f"

bad_tail-Reading : Reading ascii small (cut.pending ++ bad_tail) asks (malformed not_a_type)
unfolding parse parse_with parse_items parse_array array_body parse_bulk_string bulk_body
    parse_int_line parse_line line_at utf8_line int_or find_crlf from_utf8 is_utf8 utf8_from
    first_byte parse_i64 scan_some scan_digits unknown_type
bad_tail-Reading = at_value 22 refl (omega arith) (omega arith) (at_malformed refl)

asks_used : AllRequestsUsed Sample-Separates ascii asks
unfolding extract_command extract_args extract_name with_args from_utf8 is_utf8 utf8_from first_byte
    bytes_eq
asks_used = ((inl refl, tt), tt)

serve_chunk-Dialogue_example :
    (b : Arena) × (out : Bytes) × (m' : AbstractMap) × Dialogue ascii
      (λ _. each_noon)
      asks
      one_entry
      out
      m'
    × Holds Sample b m'
    × (serve_chunk ascii small (λ _. each_noon) cut bad_tail
        ≡ ended_with ascii small b (cut.written ++ out) (malformed not_a_type))
serve_chunk-Dialogue_example =
    serve_chunk-Dialogue Sample-Separates ascii small (λ _. each_noon) cut bad_tail one_entry asks
      (malformed not_a_type) bad_tail-Reading asks_used one-Holds
