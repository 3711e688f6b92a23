-- ===== src/Hashmap/Safe.antt =====
-- The operations of src/hashmap.rs keep an arena valid, whatever hashes collide.
use memlane.Arena.{Arena}
use memlane.Hashmap.Flush.{flush_all-no_entries}
use memlane.Hashmap.Invariant.{IsValid}
use memlane.Hashmap.Steps.{Op, op_get, op_exists, op_set, op_del, op_flush, run_op, run}
use memlane.Prelude.{◌≤◌, length, List, [], ◌∷◌}
use memlane.Slot.{max_key_len}
use memlane.Hashmap.SafeRead.{get-IsValid, exists-IsValid, del-IsValid}
use memlane.Hashmap.Crash.Valid.{set-IsValid}

-- A key that SET writes fits a slot.
abbrev pub KeyFits : Op → Type 0
KeyFits (op_set clock key value ttl_secs) = length key ≤ max_key_len
KeyFits _ = Unit {0}

abbrev pub KeysFit : List Op → Type 0
KeysFit [] = Unit {0}
KeysFit (op ∷ ops) = KeyFits op × KeysFit ops

run_op-IsValid : (op : Op) (a : Arena) → KeyFits op → IsValid a → IsValid (run_op a op).0
unfolding run_op
run_op-IsValid (op_get clock key) a fits v = get-IsValid clock a key v
run_op-IsValid (op_exists clock key) a fits v = exists-IsValid clock a key v
run_op-IsValid (op_set clock key value ttl_secs) a fits v =
    set-IsValid clock a key value ttl_secs fits v
run_op-IsValid (op_del key) a fits v = del-IsValid a key v
run_op-IsValid op_flush a fits v = (flush_all-no_entries v).0

-- Any sequence of operations keeps a valid arena valid, whatever keys collide and whatever the values'
-- lengths, as long as the keys that it writes have at most 128 bytes.
pub run-IsValid : (ops : List Op) (a : Arena) → KeysFit ops → IsValid a → IsValid (run a ops).0
unfolding run
run-IsValid [] a fits v = v
run-IsValid (op ∷ ops) a (fits, rest) v =
    run-IsValid ops (run_op a op).0 rest (run_op-IsValid op a fits v)
