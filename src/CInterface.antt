-- ===== src/CInterface.antt =====
-- src/lib.rs: the C functions in front of a client. A handle or a pointer is `none` where it is null;
-- a pointer with its length is the bytes that it points to. A call on a handle returns what the handle
-- points to after it. Lengths of slices are below 2^63, so that `as i64` keeps them.
pub mod Codes
pub mod Cycle
pub mod Handles
use memlane.Arena.{Arena, Os}
use memlane.Client
use memlane.Client.{MemLaneError}
use memlane.Hashmap.{Clock}
use memlane.Prelude.{
  ℕ, Bool, true, false, Option, none, some, ◌++◌, Bytes, length, take, drop, min, Result, ok, err,
  ℤ, pos, negsuc,
}

abbrev pub Handle : Type 0
Handle = Option Arena

abbrev pub handle_of : Result MemLaneError Arena → Handle
handle_of (ok a) = some a
handle_of (err e) = none

unfoldable pub ml_create : Os → Handle
ml_create os = handle_of (Client.create_client os)

unfoldable pub ml_open : Os → Handle
ml_open os = handle_of (Client.open_client os)

abbrev pub one_if_ok : {A : Type 0} → Result MemLaneError A → ℕ
one_if_ok (ok x) = 1
one_if_ok (err e) = 0

-- `Ok(true) => 1, _ => 0`
abbrev pub one_if_true : Result MemLaneError Bool → ℕ
one_if_true (ok true) = 1
one_if_true (ok false) = 0
one_if_true (err e) = 0

unfoldable pub ml_set : Clock → Handle → Option Bytes → Option Bytes → ℕ → Handle × ℕ
ml_set clock (some a) (some key) (some val) ttl_secs =
    let (b, r) = Client.set clock a key val ttl_secs in (some b, one_if_ok r)
ml_set clock handle key val ttl_secs = (handle, 0)

-- The copy of a value into the caller's buffer, and the code that is returned.
abbrev pub copy_out : Result MemLaneError (Option Bytes) → Bytes → Bytes × ℤ
copy_out (ok (some val)) out =
    let copy_len = min (length val) (length out) in
    (take copy_len val ++ drop copy_len out, pos copy_len)
copy_out (ok none) out = (out, negsuc 0)
copy_out (err e) out = (out, negsuc 1)

-- The handle, the caller's buffer and the code after the call.
unfoldable pub ml_get : Clock → Handle → Option Bytes → Option Bytes → Handle × Option Bytes × ℤ
ml_get clock (some a) (some key) (some out) =
    let (b, r) = Client.get clock a key in
    let (written, code) = copy_out r out in (some b, some written, code)
ml_get clock handle key out = (handle, out, negsuc 1)

unfoldable pub ml_del : Handle → Option Bytes → Handle × ℕ
ml_del (some a) (some key) = let (b, r) = Client.del a key in (some b, one_if_true r)
ml_del handle key = (handle, 0)

unfoldable pub ml_exists : Clock → Handle → Option Bytes → Handle × ℕ
ml_exists clock (some a) (some key) =
    let (b, r) = Client.exists clock a key in (some b, one_if_true r)
ml_exists clock handle key = (handle, 0)

unfoldable pub ml_flush : Handle → Handle × ℕ
ml_flush (some a) = let (b, r) = Client.flush a in (some b, one_if_ok r)
ml_flush none = (none, 0)

unfoldable pub ml_used_count : Handle → ℕ
ml_used_count (some a) = Client.used_count a
ml_used_count none = 0

unfoldable pub ml_capacity : Handle → ℕ
ml_capacity (some a) = Client.capacity a
ml_capacity none = 0
