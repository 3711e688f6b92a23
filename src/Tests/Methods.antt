-- ===== src/Tests/Methods.antt =====
-- Tests of the client, the expiry times and the connection loop.
use memlane.Client
use memlane.CInterface.{ml_get}
use memlane.CInterface.Codes.{MlGetStep, ml_get-MlGetStep}
use memlane.Hashmap.Invariant.{AbstractMap}
use memlane.Hashmap.Run.{Holds}
use memlane.Arena.{Arena}
use memlane.Client.Batch.{incr-CountStep, decr-CountStep, mget-MgetStep, mset-MsetStep}
use memlane.Client.Calls.{GetStep, ExistsStep, SetStep, DelStep, CountStep, MgetStep, MsetStep}
use memlane.Client.Number.{current-to_string}
use memlane.Client.Simple.{Keeps, get-GetStep, exists-ExistsStep, del-DelStep, set-SetStep}
use memlane.Client.{Clocks, current}
use memlane.Prelude.{
  ℤ, length, ◌%◌, ◌^◌, ◌+◌, ◌-◌, ◌*◌, ◌≡◌, ◌++◌, refl, inl, inr, false, none, some, Bytes, codes,
  [], ◌∷◌, leb, if◌then◌else◌, arith, List, replicate,
}
use memlane.Resp.Command.{TextOps, upper_byte, lower_byte}
use memlane.Resp.{
  parse_all, value, RespValue, bulk_string, array, no_items, item, parse, encode, encode_items,
  count_items, more, parse_with, parse_items, parse_array, array_body, parse_bulk_string, bulk_body,
  parse_int_line, parse_line, line_at, utf8_line, int_or, find_crlf,
}
use memlane.Resp.Stream.{encode_all, parse_all-encode_all}
use memlane.Server.Loop.{IsDrained, serve_loop-IsDrained}
use memlane.Server.Pipeline.{dispatch_all, serve_chunk-encode_all}
use memlane.Server.Connection.{Served, serve_loop, serve_chunk}
use memlane.Slot.{Slot}
use memlane.Tests.Samples.{
  noon, midnight, mq, nt, one, one_entry, Sample, Sample-Separates, one-Holds, blank_slot,
}
use memlane.Tests.Wire.{small}
use memlane.Text.{
  to_string, digits, from_utf8, is_utf8, utf8_from, first_byte, parse_i64, scan_some, scan_digits,
}
use memlane.Ttl.Lifetime.{is_expired-ttl_to_expiry}
use memlane.Ttl.{ttl_to_expiry, is_expired, remaining_ttl_ms}
use mathlib.Core.List.{map}

abbrev pub each_noon : Clocks
each_noon _ = noon

get-GetStep_example : Keeps Sample (GetStep one_entry midnight mq) (Client.get midnight one mq)
get-GetStep_example = get-GetStep Sample-Separates one-Holds midnight mq (inl refl)

exists-ExistsStep_example : Keeps Sample (ExistsStep one_entry noon nt) (Client.exists noon one nt)
exists-ExistsStep_example = exists-ExistsStep Sample-Separates one-Holds noon nt (inr refl)

del-DelStep_example : Keeps Sample (DelStep one_entry mq) (Client.del one mq)
del-DelStep_example = del-DelStep Sample-Separates one-Holds mq (inl refl)

set-SetStep_example :
    Keeps Sample
      (SetStep one_entry noon nt (replicate 1025 7) 9)
      (Client.set noon one nt (replicate 1025 7) 9)
set-SetStep_example = set-SetStep Sample-Separates one-Holds noon nt (replicate 1025 7) 9 (inr refl)

incr-CountStep_example :
    Keeps Sample
      (CountStep (λ n. (n + 1) % 2 ^ 64) each_noon mq one_entry)
      (Client.incr each_noon one mq)
incr-CountStep_example = incr-CountStep Sample-Separates each_noon mq (inl refl) one-Holds

decr-CountStep_example :
    Keeps Sample (CountStep (λ n. n - 1) each_noon nt one_entry) (Client.decr each_noon one nt)
decr-CountStep_example = decr-CountStep Sample-Separates each_noon nt (inr refl) one-Holds

mget-MgetStep_example :
    Keeps Sample
      (MgetStep each_noon (mq ∷ nt ∷ []) one_entry)
      (Client.mget each_noon one (mq ∷ nt ∷ []))
mget-MgetStep_example =
    mget-MgetStep Sample-Separates (mq ∷ nt ∷ []) each_noon one one_entry (inl refl, (inr refl, tt))
      one-Holds

abbrev two_pairs : List (Bytes × Bytes)
two_pairs = (nt, codes "1") ∷ (mq, replicate 1025 7) ∷ []

mset-MsetStep_example :
    Keeps Sample
      (MsetStep each_noon 3 0 two_pairs one_entry)
      (Client.mset each_noon one two_pairs 3)
mset-MsetStep_example =
    mset-MsetStep Sample-Separates each_noon one one_entry two_pairs 3 (inr refl, (inl refl, tt))
      one-Holds

current-to_string_example : current (some (to_string 41)) ≡ 41
current-to_string_example = current-to_string 41 (omega arith)

abbrev until_six : Slot
until_six = record blank_slot { expires_at_ms = ttl_to_expiry 1000 5 }

is_expired-ttl_to_expiry_example :
    (is_expired 6000 until_six ≡ leb (1000 + 5 * 1000) 6000)
    × (remaining_ttl_ms 6000 until_six
        ≡ (if leb (1000 + 5 * 1000) 6000 then none else some (1000 + 5 * 1000 - 6000)))
is_expired-ttl_to_expiry_example =
    is_expired-ttl_to_expiry 1000 5 6000 until_six (omega arith) (omega arith) refl

-- Text operations that hold what is documented of ASCII text.
abbrev pub ascii : TextOps
ascii = record {
  to_uppercase = map upper_byte;
  to_lowercase = map lower_byte;
  from_utf8_lossy = λ s. s;
  format_fill = λ used total. codes "0.00";
  upper_ascii = λ s h. refl;
  lower_ascii = λ s h. refl;
  lossy_ascii = λ s h. refl;
}

abbrev pub ask : Bytes → Bytes → RespValue
ask name key = array (item (bulk_string name) (item (bulk_string key) no_items))

abbrev pub half : Bytes
half = codes "*1\r\n$4\r\nPI"

half-more : parse small half ≡ more
unfolding parse parse_with parse_items parse_array array_body parse_bulk_string bulk_body
    parse_int_line parse_line line_at utf8_line int_or find_crlf from_utf8 is_utf8 utf8_from
    first_byte parse_i64 scan_some scan_digits
half-more = refl

-- A command was cut in the middle, and the next read brings its end, a second one, and half a third.
abbrev asked : List RespValue
asked = ask (codes "INCR") mq ∷ ask (codes "GET") mq ∷ []

abbrev pub cut : Served
cut = record { arena = one; pending = codes "*2\r\n$4\r\nIN"; written = []; crashed = false }

abbrev next_read : Bytes
next_read = codes "CR\r\n$2\r\nmq\r\n*2\r\n$3\r\nGET\r\n$2\r\nmq\r\n" ++ half

serve_chunk-encode_all_example : serve_chunk ascii small (λ _. each_noon) cut next_read ≡ (record {
  arena = (dispatch_all ascii (λ _. each_noon) one asked).0;
  pending = half;
  written = [] ++ (dispatch_all ascii (λ _. each_noon) one asked).1;
  crashed = false;
})
unfolding encode encode_items count_items to_string digits
serve_chunk-encode_all_example =
    serve_chunk-encode_all ascii small (λ _. each_noon) cut next_read asked half
      (
        (omega arith, refl, (omega arith, (omega arith, tt))),
        ((omega arith, refl, (omega arith, (omega arith, tt))), tt),
      )
      half-more refl

parse_all-encode_all_example :
    parse_all small (encode_all asked ++ half) ≡ value asked (length (encode_all asked))
unfolding count_items
parse_all-encode_all_example =
    parse_all-encode_all small asked half
      (
        (omega arith, refl, (omega arith, (omega arith, tt))),
        ((omega arith, refl, (omega arith, (omega arith, tt))), tt),
      )
      half-more

serve_loop-IsDrained_example :
    (serve_loop ascii small 100 (λ _. each_noon) one next_read []
      ≡ serve_loop ascii small 200 (λ _. each_noon) one next_read [])
    × IsDrained ascii small (serve_loop ascii small 100 (λ _. each_noon) one next_read [])
serve_loop-IsDrained_example =
    serve_loop-IsDrained ascii small 100 200 (λ _. each_noon) one next_read [] (omega arith)
      (omega arith)

abbrev pub room : Bytes
room = replicate 16 0

ml_get-MlGetStep_example :
    (b : Arena) × (out' : Bytes) × (code : ℤ) × (m' : AbstractMap) × (ml_get noon
        (some one)
        (some mq)
        (some room)
      ≡ (some b, some out', code))
    × MlGetStep one_entry noon mq room out' code m'
    × Holds Sample b m'
ml_get-MlGetStep_example =
    ml_get-MlGetStep Sample-Separates noon one one_entry mq room (inl refl) one-Holds
