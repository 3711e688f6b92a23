-- ===== src/Resp.antt =====
-- src/server/resp.rs: RESP2 values, their parser and encoder, and commands. Strings are their UTF-8
-- bytes. `Vec::with_capacity` panics or aborts for counts that the allocator refuses: which ones it
-- grants is an argument, `can_reserve`. An array's elements are parsed by a recursive call, so the
-- parser takes fuel; `parse` gives enough for any buffer.
pub mod Line
pub mod Command
pub mod Stream
pub mod Extend
pub mod Reads
pub mod Fuel
pub mod RoundTrip
use memlane.Prelude.{
  ℕ, List, zero, suc, ◌+◌, ◌-◌, ◌*◌, ◌/◌, ◌%◌, Bool, ◌&&◌, Option, none, some, [], ◌∷◌, ◌++◌, ltb,
  ◌==◌, if◌then◌else◌, Bytes, codes, length, take, drop, ℤ, pos, negsuc,
}
use memlane.Text.{to_string, int_to_string, from_utf8, parse_i64, map_option}

mutual
  pub data RespValue : Type 0 where
    simple_string : Bytes → RespValue
    error : Bytes → RespValue
    integer : ℤ → RespValue
    bulk_string : Bytes → RespValue
    nil : RespValue
    array : RespValues → RespValue

  -- The items of an array.
  pub data RespValues : Type 0 where
    no_items : RespValues
    item : RespValue → RespValues → RespValues

-- `parse` answers a value with the bytes that it took, or asks for more, or refuses. `crash` is a
-- failed `Vec::with_capacity`; `out_of_fuel` has no counterpart in the program.
pub data Parsed {ℓ} (A : Type ℓ) : Type ℓ where
  value : A → ℕ → Parsed A
  more : Parsed A
  protocol : Bytes → Parsed A
  crash : Parsed A
  out_of_fuel : Parsed A

abbrev pub and_then {ℓ κ} : {A : Type ℓ} {B : Type κ} → Parsed A → (A → ℕ → Parsed B) → Parsed B
and_then (value a n) f = f a n
and_then more f = more
and_then (protocol m) f = protocol m
and_then crash f = crash
and_then out_of_fuel f = out_of_fuel

-- The position of the first `\r\n`.
unfoldable pub find_crlf : Bytes → Option ℕ
find_crlf [] = none
find_crlf (x ∷ []) = none
find_crlf (x ∷ y ∷ buf) =
    let rest = find_crlf (y ∷ buf) in if x == 13 && y == 10 then some 0 else map_option suc rest

-- A line that has to be UTF-8, and the bytes that it took.
unfoldable pub utf8_line : Option Bytes → ℕ → Parsed Bytes
utf8_line none consumed = protocol (codes "Non-UTF8 line")
utf8_line (some line) consumed = value line consumed

unfoldable pub line_at : Bytes → Option ℕ → Parsed Bytes
line_at buf none = more
line_at buf (some i) = utf8_line (from_utf8 (take (i - 1) (drop 1 buf))) (i + 2)

-- The line behind the first byte, with the length of the whole line.
unfoldable pub parse_line : Bytes → Parsed Bytes
parse_line buf = line_at buf (find_crlf buf)

unfoldable pub parse_simple_string : Bytes → Parsed RespValue
parse_simple_string buf =
    and_then (parse_line buf) λ line consumed. value (simple_string line) consumed

unfoldable pub parse_error : Bytes → Parsed RespValue
parse_error buf = and_then (parse_line buf) λ line consumed. value (error line) consumed

-- `line.parse::<i64>()` with the error that names the line.
unfoldable pub int_or : Bytes → Option ℤ → ℕ → Parsed ℤ
int_or message none consumed = protocol message
int_or message (some n) consumed = value n consumed

-- A line that has to be an `i64`.
unfoldable pub parse_int_line : Bytes → Bytes → Parsed ℤ
parse_int_line what buf =
    and_then (parse_line buf) λ line consumed. int_or (what ++ line) (parse_i64 line) consumed

unfoldable pub parse_integer : Bytes → Parsed RespValue
parse_integer buf =
    and_then (parse_int_line (codes "Invalid integer: ") buf)
      λ n consumed. value (integer n) consumed

unfoldable pub bulk_body : Bytes → ℤ → ℕ → Parsed RespValue
bulk_body buf (negsuc _) header_len = value nil header_len
bulk_body buf (pos len) header_len =
    let needed = header_len + len + 2 in
    if ltb (length buf) needed
    then more
    else value (bulk_string (take len (drop header_len buf))) needed

unfoldable pub parse_bulk_string : Bytes → Parsed RespValue
parse_bulk_string buf =
    and_then (parse_int_line (codes "Invalid bulk string length: ") buf) (bulk_body buf)

-- One lower-case hexadecimal digit.
abbrev hex_digit : ℕ → ℕ
hex_digit d = if ltb d 10 then b'0' + d else 87 + d

unfoldable pub unknown_type : ℕ → Parsed RespValue
unknown_type b =
    protocol (codes "Unknown RESP type byte: 0x" ++ hex_digit (b / 16) ∷ hex_digit (b % 16) ∷ [])

module _ (can_reserve : ℕ → Bool) where
  -- What follows the header of an array; `items` is the loop over its elements.
  unfoldable pub array_body : (ℕ → ℕ → Parsed RespValues) → ℤ → ℕ → Parsed RespValue
  array_body items (negsuc _) offset = value nil offset
  array_body items (pos count) offset =
      if can_reserve count
      then and_then (items count offset) (λ vs end. value (array vs) end)
      else crash

  unfoldable mutual
    pub parse_with : ℕ → Bytes → Parsed RespValue
    parse_with zero buf = out_of_fuel
    parse_with (suc f) [] = more
    parse_with (suc f) (b ∷ rest) =
        let buf = b ∷ rest in
        let array = parse_array f buf in
        if b == b'+'
        then parse_simple_string buf
        else if b == b'-'
        then parse_error buf
        else if b == b':'
        then parse_integer buf
        else if b == b'$'
        then parse_bulk_string buf
        else if b == b'*'
        then array
        else unknown_type b

    -- `for _ in 0..count`, with the items that are left, the offset, and `buf[offset..]`.
    pub parse_items : ℕ → ℕ → ℕ → Bytes → Parsed RespValues
    parse_items zero left offset rest = out_of_fuel
    parse_items (suc f) left offset rest =
        let next = and_then (parse_with f rest) λ v consumed.
          and_then (parse_items f (left - 1) (offset + consumed) (drop consumed rest))
            λ vs end. value (item v vs) end in
        if left == 0 then value no_items offset else next

    pub parse_array : ℕ → Bytes → Parsed RespValue
    parse_array zero buf = out_of_fuel
    parse_array (suc f) buf =
        and_then (parse_int_line (codes "Invalid array length: ") buf)
          (array_body (λ count offset. parse_items f count offset (drop offset buf)))

  unfoldable pub parse : Bytes → Parsed RespValue
  parse buf = parse_with (3 * length buf + 3) buf

  -- The loop of `parse_all`, with `offset` bytes before the buffer that is left. A value takes bytes, so
  -- the length of the buffer is fuel enough.
  unfoldable pub parse_all_loop : ℕ → ℕ → Bytes → Parsed (List RespValue)
  parse_all_loop zero offset buf = out_of_fuel
  parse_all_loop (suc f) offset buf = elim (parse buf) [
    | value v n ↦ and_then (parse_all_loop f (offset + n) (drop n buf)) λ vs end. value (v ∷ vs) end
    | more ↦ value [] offset
    | protocol m ↦ protocol m
    | crash ↦ crash
    | out_of_fuel ↦ out_of_fuel
  ]

  unfoldable pub parse_all : Bytes → Parsed (List RespValue)
  parse_all buf = parse_all_loop (suc (length buf)) 0 buf

-- `items.len()`
unfoldable pub count_items : RespValues → ℕ
count_items no_items = 0
count_items (item v vs) = suc (count_items vs)

unfoldable mutual
  pub encode : RespValue → Bytes
  encode (simple_string s) = b'+' ∷ s ++ codes "\r\n"
  encode (error e) = b'-' ∷ e ++ codes "\r\n"
  encode (integer n) = b':' ∷ int_to_string n ++ codes "\r\n"
  encode (bulk_string bytes) =
      b'$' ∷ to_string (length bytes) ++ (codes "\r\n" ++ (bytes ++ codes "\r\n"))
  encode nil = codes "$-1\r\n"
  encode (array items) =
      b'*' ∷ to_string (count_items items) ++ (codes "\r\n" ++ encode_items items)

  pub encode_items : RespValues → Bytes
  encode_items no_items = []
  encode_items (item v vs) = encode v ++ encode_items vs
