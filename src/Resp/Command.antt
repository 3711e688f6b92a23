-- ===== src/Resp/Command.antt =====
-- Commands and replies of src/server/resp.rs: `extract_command` and the common response builders.
-- Unicode case tables, lossy decoding and the printing of floats are those of Rust's library:
-- arguments, with what is documented of them on ASCII text.
use memlane.Prelude.{
  ℕ, ◌+◌, ◌-◌, ◌≡◌, ◌&&◌, List, [], ◌∷◌, ◌++◌, none, some, leb, if◌then◌else◌, Bytes, codes, Result,
  ok, err,
}
use memlane.Resp.{RespValue, RespValues, simple_string, error, bulk_string, array, no_items, item}
use memlane.Text.Utf8.{IsAscii}
use memlane.Text.{from_utf8}
use mathlib.Core.List.{map}

abbrev pub upper_byte : ℕ → ℕ
upper_byte c = if leb b'a' c && leb c b'z' then c - 32 else c

abbrev pub lower_byte : ℕ → ℕ
lower_byte c = if leb b'A' c && leb c b'Z' then c + 32 else c

pub record TextOps : Type 0 where
  pub to_uppercase : Bytes → Bytes
  pub to_lowercase : Bytes → Bytes
  pub from_utf8_lossy : Bytes → Bytes
  -- the fill ratio in per cent with two decimals, of the used slots and the capacity
  pub format_fill : ℕ → ℕ → Bytes
  pub upper_ascii : (s : Bytes) → IsAscii s → to_uppercase s ≡ map upper_byte s
  pub lower_ascii : (s : Bytes) → IsAscii s → to_lowercase s ≡ map lower_byte s
  pub lossy_ascii : (s : Bytes) → IsAscii s → from_utf8_lossy s ≡ s

pub record Command : Type 0 where
  pub name : Bytes
  pub args : List Bytes

-- The arguments, collected until one is no bulk string.
unfoldable pub extract_args : RespValues → Result Bytes (List Bytes)
extract_args no_items = ok []
extract_args (item (bulk_string b) vs) = elim (extract_args vs) [
  | ok args ↦ ok (b ∷ args)
  | err e ↦ err e
]
extract_args (item _ vs) = err (codes "Command args must be bulk strings")

module _ (text : TextOps) where
  unfoldable pub extract_name : RespValue → Result Bytes Bytes
  extract_name (bulk_string b) = elim (from_utf8 b) [
    | none ↦ err (codes "Non-UTF8 command name")
    | some s ↦ ok (text.to_uppercase s)
  ]
  extract_name _ = err (codes "Command name must be a bulk string")

  unfoldable pub with_args : RespValues → Result Bytes Bytes → Result Bytes Command
  with_args vs (err e) = err e
  with_args vs (ok name) = elim (extract_args vs) [
    | ok args ↦ ok (record { name = name; args = args })
    | err e ↦ err e
  ]

  unfoldable pub extract_command : RespValue → Result Bytes Command
  extract_command (array (item v vs)) = with_args vs (extract_name v)
  extract_command _ = err (codes "Expected RESP array for command")

  unfoldable pub wrong_args : Bytes → RespValue
  wrong_args cmd =
      error (
        codes "ERR wrong number of arguments for '" ++ (text.to_lowercase cmd ++ codes "' command"))

abbrev pub ok_reply : RespValue
ok_reply = simple_string (codes "OK")

abbrev pub pong : RespValue
pong = simple_string (codes "PONG")

abbrev pub err_reply : Bytes → RespValue
err_reply msg = error (codes "ERR " ++ msg)
