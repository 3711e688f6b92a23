-- ===== src/Tests/Streams.antt =====
-- Tests of what arrives in pieces: buffers, reads, and the commands of several connections.
use memlane.Hashmap.Invariant.{IsValid}
use memlane.Prelude.{
  ◌≡◌, ◌⊎◌, refl, true, none, some, Bytes, codes, List, [], ◌∷◌, ◌++◌, take, drop, arith,
}
use memlane.Resp.Extend.{parse-append, parse-take}
use memlane.Resp.Reads.{Reads, parse_all-Reads}
use memlane.Resp.{
  RespValue, value, more, parse, parse_all, parse_all_loop, parse_with, parse_items, parse_array,
  array_body, parse_bulk_string, bulk_body, parse_int_line, parse_line, line_at, utf8_line, int_or,
  find_crlf,
}
use memlane.Server.Connection.{serve_chunk}
use memlane.Server.Safe.{dispatch_command-IsValid}
use memlane.Server.Sessions.{Task, Sessions, set_task}
use memlane.Server.Untouched.{serve_chunk-IsValid}
use memlane.Server.Split.{serve_chunk-append}
use memlane.Server.{dispatch_command}
use memlane.Tests.Methods.{ascii, each_noon, ask, cut}
use memlane.Tests.Samples.{mq, one, one-Ends}
use memlane.Tests.Wire.{small}
use memlane.Text.{from_utf8, is_utf8, utf8_from, first_byte, parse_i64, scan_some, scan_digits}

abbrev pub ask_mq : Bytes
ask_mq = codes "*2\r\n$4\r\nINCR\r\n$2\r\nmq\r\n"

-- A command, and the next one without its end.
abbrev broken_off : Bytes
broken_off = ask_mq ++ codes "*2\r\n$3\r\nGET\r\n$2\r\nm"

abbrev pub asks : List RespValue
asks = ask (codes "INCR") mq ∷ []

pub ask_mq-value : parse small ask_mq ≡ value (ask (codes "INCR") mq) 22
unfolding parse parse_with parse_items parse_array array_body parse_bulk_string bulk_body
    parse_int_line parse_line line_at utf8_line int_or find_crlf from_utf8 is_utf8 utf8_from
    first_byte parse_i64 scan_some scan_digits
ask_mq-value = refl

broken_off-value : parse_all small broken_off ≡ value asks 22
unfolding parse parse_with parse_items parse_array array_body parse_bulk_string bulk_body
    parse_int_line parse_line line_at utf8_line int_or find_crlf from_utf8 is_utf8 utf8_from
    first_byte parse_i64 scan_some scan_digits parse_all parse_all_loop
broken_off-value = refl

pub nothing-more : parse small [] ≡ more
unfolding parse parse_with
nothing-more = refl

parse-append_example :
    (parse small ask_mq ≡ more) ⊎ (parse small (ask_mq ++ codes "*9") ≡ parse small ask_mq)
parse-append_example = parse-append small ask_mq (codes "*9")

parse-take_example : parse small (take 13 ask_mq) ≡ more
parse-take_example =
    parse-take small ask_mq (ask (codes "INCR") mq) 22 13 ask_mq-value (omega arith)

parse_all-Reads_example : Reads small broken_off asks (drop 22 broken_off)
parse_all-Reads_example = parse_all-Reads small broken_off asks 22 broken_off-value

-- The bytes that `cut` waits for, and the start of the next command; then its end.
abbrev second_read : Bytes
second_read = codes "CR\r\n$2\r\nmq\r\n*2\r\n$3\r\nGET\r\n$2\r\nm"

serve_chunk-append_example :
    serve_chunk ascii small (λ _. each_noon) cut (second_read ++ codes "q\r\n")
    ≡ serve_chunk ascii small
        (λ i. each_noon)
        (serve_chunk ascii small (λ _. each_noon) cut second_read)
        (codes "q\r\n")
serve_chunk-append_example =
    serve_chunk-append ascii small (λ _. each_noon) cut second_read (codes "q\r\n") asks 22
      broken_off-value

dispatch_command-IsValid_example :
    IsValid (dispatch_command ascii each_noon one (ask (codes "INCR") mq)).0
dispatch_command-IsValid_example =
    dispatch_command-IsValid each_noon one one-Ends.valid ascii (ask (codes "INCR") mq)

-- A server without connections, and with one.
abbrev pub idle : Sessions
idle = record { tasks = λ _. none; running = true }

abbrev pub new_task : Task
new_task = record { pending = []; written = [] }

abbrev pub visited : Sessions
visited = set_task idle 0 (some new_task)

abbrev pub asked_once : Sessions
asked_once = set_task visited 0 (some (record { pending = ask_mq; written = [] }))

-- A read that ends a command, which writes to the table.
serve_chunk-IsValid_example :
    IsValid (serve_chunk ascii small (λ _. each_noon) cut second_read).arena
serve_chunk-IsValid_example =
    serve_chunk-IsValid ascii small (λ _. each_noon) cut second_read one-Ends.valid
