-- ===== src/Tests/Wire.antt =====
-- Tests of the protocol and of the texts of numbers.
use memlane.Prelude.{ℕ, ◌≡◌, ◌++◌, refl, Bool, some, codes, arith, negsuc, length, ltb, take}
use memlane.Resp.Fuel.{Takes, parse-Takes}
use memlane.Resp.RoundTrip.{parse-encode}
use memlane.Resp.{
  RespValue, integer, bulk_string, nil, array, no_items, item, value, parse, encode, count_items,
}
use memlane.Slot.Buffers.{read_key-write_key, read_value-write_value}
use memlane.Slot.{max_key_len, max_val_len, read_key, read_value, write_key, write_value}
use memlane.Tests.Samples.{blank_slot}
use memlane.Text.Decimal.{parse_u64-to_string, parse_i64-int_to_string}
use memlane.Text.{parse_u64, parse_i64, to_string, int_to_string}

-- Room for lists of a million elements.
abbrev pub small : ℕ → Bool
small n = ltb n 1000000

abbrev set_command : RespValue
set_command = array (
    item (bulk_string (codes "SET")) (
      item (bulk_string (codes "k"))
        (item (bulk_string (codes "a\r\nb")) (item (integer (negsuc 4)) (item nil no_items)))))

parse-encode_example :
    parse small (encode set_command ++ codes "*1\r")
    ≡ value set_command (length (encode set_command))
unfolding count_items
parse-encode_example =
    parse-encode small set_command (codes "*1\r")
      (omega arith, refl, (omega arith, (omega arith, (omega arith, (omega arith, (tt, tt))))))

parse-Takes_example : Takes 3 10 (parse small (codes "*1\r\n$3\r\nab"))
parse-Takes_example = parse-Takes small (codes "*1\r\n$3\r\nab")

parse_u64-to_string_example : parse_u64 (to_string 18446744073709551615) ≡ some 18446744073709551615
parse_u64-to_string_example = parse_u64-to_string 18446744073709551615 (omega arith)

parse_i64-int_to_string_example : parse_i64 (int_to_string (negsuc 41)) ≡ some (negsuc 41)
parse_i64-int_to_string_example = parse_i64-int_to_string (negsuc 41) (omega arith)

read_key-write_key_example :
    read_key (write_key (codes "mq") blank_slot) ≡ take max_key_len (codes "mq")
read_key-write_key_example = read_key-write_key (codes "mq") blank_slot

read_value-write_value_example :
    read_value (write_value (codes "7") blank_slot) ≡ take max_val_len (codes "7")
read_value-write_value_example = read_value-write_value (codes "7") blank_slot
