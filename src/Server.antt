-- ===== src/Server.antt =====
-- src/server/mod.rs: the command dispatcher, a function for each command. A command takes the arena
-- and returns the new one with its reply.
pub mod Connection
pub mod Loop
pub mod Pipeline
pub mod Reading
pub mod Split
pub mod Telemetry
pub mod Safe
pub mod Dispatch
pub mod Branches
pub mod Arity
pub mod Calls
pub mod Replies
pub mod Answers
pub mod Refine
pub mod Untouched
pub mod Sessions
use memlane.Arena.{Arena}
use memlane.Client
use memlane.Client.{
  Clocks, MemLaneError, arena_init, arena_full, key_too_long, value_too_long, Reply, later,
}
use memlane.Prelude.{
  ℕ, ◌+◌, ◌-◌, ◌/◌, ◌%◌, ◌^◌, Bool, true, false, not, Option, none, some, List, [], ◌∷◌, ◌++◌, ltb,
  ◌==◌, if◌then◌else◌, bytes_eq, Bytes, codes, length, Result, ok, err, ℤ, pos, negsuc,
}
use memlane.Resp.Command.{TextOps, extract_command, wrong_args, ok_reply, pong, err_reply}
use memlane.Resp.{RespValue, RespValues, error, integer, bulk_string, nil, array, no_items, item}
use memlane.Text.{parse_u64, to_string}
use memlane.Word.{u64_mod, wrapping_add}

-- `e.to_string()`; the dash of the second message is three bytes.
unfoldable pub error_text : MemLaneError → Bytes
error_text (arena_init e) = codes "Arena initialisation failed: " ++ e
error_text (arena_full n) =
    codes "Arena is full "
    ++ ((0xe2 ∷ 0x80 ∷ 0x94 ∷ [])
        ++ (codes " all " ++ (to_string n ++ codes " slots are occupied")))
error_text (key_too_long n) = codes "Key too long: " ++ (to_string n ++ codes " bytes (max 128)")
error_text (value_too_long n) =
    codes "Value too long: " ++ (to_string n ++ codes " bytes (max 1024)")

-- `match r { Ok(x) => f(x), Err(e) => err(&e.to_string()) }`
abbrev pub reply : {A : Type 0} → Reply A → (A → RespValue) → Arena × RespValue
reply (a, ok x) f = (a, f x)
reply (a, err e) f = (a, err_reply (error_text e))

-- `n as i64`
unfoldable pub as_i64 : ℕ → ℤ
as_i64 n = if ltb n (2 ^ 63) then pos n else negsuc (u64_mod - n - 1)

abbrev pub bulk_or_nil : Option Bytes → RespValue
bulk_or_nil (some v) = bulk_string v
bulk_or_nil none = nil

abbrev pub bulks : List (Option Bytes) → RespValues
bulks [] = no_items
bulks (v ∷ vs) = item (bulk_or_nil v) (bulks vs)

unfoldable pub run_ping : List Bytes → RespValue
run_ping [] = pong
run_ping (message ∷ _) = bulk_string message

-- `if let Ok(true) = r { n += 1 }`
abbrev pub count_true : Result MemLaneError Bool → ℕ → ℕ
count_true (ok true) n = n + 1
count_true (ok false) n = n
count_true (err e) n = n

-- The loops of DEL and EXISTS over the keys.
unfoldable pub del_keys : Arena → List Bytes → ℕ → Arena × ℕ
del_keys a [] count = (a, count)
del_keys a (key ∷ keys) count =
    let (a', r) = Client.del a key in del_keys a' keys (count_true r count)

unfoldable pub exists_keys : Clocks → Arena → List Bytes → ℕ → Arena × ℕ
exists_keys clocks a [] count = (a, count)
exists_keys clocks a (key ∷ keys) count =
    let (a', r) = Client.exists (clocks 0) a key in
    exists_keys (later clocks) a' keys (count_true r count)

-- `args.chunks(2)`, of an even number of arguments.
unfoldable pub pairs_of : List Bytes → List (Bytes × Bytes)
pairs_of (key ∷ val ∷ rest) = (key, val) ∷ pairs_of rest
pairs_of _ = []

unfoldable pub run_get : Clocks → Arena → List Bytes → Option (Arena × RespValue)
run_get clocks a (key ∷ []) = some (reply (Client.get (clocks 0) a key) bulk_or_nil)
run_get clocks a _ = none

unfoldable pub run_incr : Clocks → Arena → List Bytes → Option (Arena × RespValue)
run_incr clocks a (key ∷ []) = some (reply (Client.incr clocks a key) λ n. integer (as_i64 n))
run_incr clocks a _ = none

unfoldable pub run_decr : Clocks → Arena → List Bytes → Option (Arena × RespValue)
run_decr clocks a (key ∷ []) = some (reply (Client.decr clocks a key) λ n. integer (as_i64 n))
run_decr clocks a _ = none

unfoldable pub run_del : Arena → List Bytes → Option (Arena × RespValue)
run_del a [] = none
run_del a (key ∷ keys) = let (a', n) = del_keys a (key ∷ keys) 0 in some (a', integer (pos n))

unfoldable pub run_exists : Clocks → Arena → List Bytes → Option (Arena × RespValue)
run_exists clocks a [] = none
run_exists clocks a (key ∷ keys) =
    let (a', n) = exists_keys clocks a (key ∷ keys) 0 in some (a', integer (pos n))

unfoldable pub run_mget : Clocks → Arena → List Bytes → Option (Arena × RespValue)
run_mget clocks a [] = none
run_mget clocks a (key ∷ keys) =
    some (reply (Client.mget clocks a (key ∷ keys)) λ vs. array (bulks vs))

unfoldable pub run_mset : Clocks → Arena → List Bytes → Option (Arena × RespValue)
run_mset clocks a args =
    if length args == 0
    then none
    else if not (length args % 2 == 0)
    then none
    else some (reply (Client.mset clocks a (pairs_of args) 0) λ _. ok_reply)

unfoldable pub run_ttl : Arena → List Bytes → Option (Arena × RespValue)
run_ttl a (key ∷ []) = some (a, integer (negsuc 0))
run_ttl a _ = none

unfoldable pub run_flush : Arena → Arena × RespValue
run_flush a = reply (Client.flush a) λ _. ok_reply

abbrev pub unwrap_or_zero : Option ℕ → ℕ
unwrap_or_zero none = 0
unwrap_or_zero (some n) = n

module _ (text : TextOps) where
  -- `String::from_utf8_lossy(arg).parse().unwrap_or(0)`
  unfoldable pub seconds_arg : Bytes → ℕ
  seconds_arg arg = unwrap_or_zero (parse_u64 (text.from_utf8_lossy arg))

  -- The `while` loop over the options of SET.
  unfoldable pub set_options : ℕ → List Bytes → ℕ
  set_options ttl [] = ttl
  set_options ttl (opt ∷ []) = ttl
  set_options ttl (opt ∷ arg ∷ rest) =
      let name = text.to_uppercase (text.from_utf8_lossy opt) in
      let ex = set_options (seconds_arg arg) rest in
      let px = set_options (wrapping_add (seconds_arg arg) 999 / 1000) rest in
      let skip = set_options ttl (arg ∷ rest) in
      if bytes_eq name (codes "EX") then ex else if bytes_eq name (codes "PX") then px else skip

  unfoldable pub run_set : Clocks → Arena → List Bytes → Option (Arena × RespValue)
  run_set clocks a (key ∷ val ∷ options) =
      some (reply (Client.set (clocks 0) a key val (set_options 0 options)) λ _. ok_reply)
  run_set clocks a _ = none

  unfoldable pub run_info : Arena → Arena × RespValue
  run_info a =
      let used = Client.used_count a in
      let total = Client.capacity a in
      (
        a,
        bulk_string (
            codes "# MemLane\r\nmemlane_version:0.1.0\r\nused_slots:"
            ++ (to_string used
                ++ (codes "\r\ntotal_slots:"
                    ++ (to_string total
                        ++ (codes "\r\nfill_ratio:"
                            ++ (text.format_fill used total
                                ++ codes "%\r\ntransport:shared_memory\r\nprotocol:RESP2\r\n")))))),
      )

  unfoldable pub unknown_command : Bytes → RespValue
  unknown_command name = error (
      codes "ERR unknown command '"
      ++ (text.to_lowercase name
          ++ codes "', try PING, GET, SET, DEL, EXISTS, MGET, MSET, INCR, DECR, FLUSH, INFO"))

  -- A command that answers `none` was called with the wrong number of arguments.
  abbrev pub checked : Arena → Bytes → Option (Arena × RespValue) → Arena × RespValue
  checked a name none = (a, wrong_args text name)
  checked a name (some r) = r

  unfoldable pub run_command : Clocks → Arena → Bytes → List Bytes → Arena × RespValue
  run_command clocks a name args =
      if bytes_eq name (codes "PING")
      then (a, run_ping args)
      else if bytes_eq name (codes "GET")
      then checked a (codes "GET") (run_get clocks a args)
      else if bytes_eq name (codes "SET")
      then checked a (codes "SET") (run_set clocks a args)
      else if bytes_eq name (codes "DEL")
      then checked a (codes "DEL") (run_del a args)
      else if bytes_eq name (codes "EXISTS")
      then checked a (codes "EXISTS") (run_exists clocks a args)
      else if bytes_eq name (codes "MGET")
      then checked a (codes "MGET") (run_mget clocks a args)
      else if bytes_eq name (codes "MSET")
      then checked a (codes "MSET") (run_mset clocks a args)
      else if bytes_eq name (codes "INCR")
      then checked a (codes "INCR") (run_incr clocks a args)
      else if bytes_eq name (codes "DECR")
      then checked a (codes "DECR") (run_decr clocks a args)
      else if bytes_eq name (codes "TTL")
      then checked a (codes "TTL") (run_ttl a args)
      else if bytes_eq name (codes "FLUSH")
      then run_flush a
      else if bytes_eq name (codes "FLUSHALL")
      then run_flush a
      else if bytes_eq name (codes "FLUSHDB")
      then run_flush a
      else if bytes_eq name (codes "INFO")
      then run_info a
      else if bytes_eq name (codes "COMMAND")
      then (a, array no_items)
      else (a, unknown_command name)

  unfoldable pub dispatch_command : Clocks → Arena → RespValue → Arena × RespValue
  dispatch_command clocks a v = elim (extract_command text v) [
    | ok cmd ↦ run_command clocks a cmd.name cmd.args
    | err e ↦ (a, err_reply e)
  ]

  -- The name that a metric event carries.
  unfoldable pub command_name : RespValue → Bytes
  command_name (array (item (bulk_string b) vs)) = text.to_uppercase (text.from_utf8_lossy b)
  command_name _ = codes "UNKNOWN"
