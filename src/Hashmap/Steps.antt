-- ===== src/Hashmap/Steps.antt =====
-- Sequences of operations of src/hashmap.rs, on an arena and on the abstract map.
use memlane.Arena.{Arena, slot_count}
use memlane.Hashmap.Flush.{no_entries}
use memlane.Hashmap.Invariant.{Entry, AbstractMap, assign}
use memlane.Hashmap.Spec.{is_dead, read_entry, keep_entry, del_entry}
use memlane.Hashmap.{
  Clock, GetResult, SetResult, inserted, updated, full, DelResult, get, set, del, is_found, exists,
  flush_all,
}
use memlane.Prelude.{ℕ, suc, ◌<◌, ◌≡◌, ◌≢◌, Bool, true, false, none, some, List, [], ◌∷◌, Bytes}
use memlane.Ttl.{ttl_to_expiry}

-- A call of an operation, with what the clock reads in its rounds.
pub data Op : Type 0 where
  op_get : Clock → Bytes → Op
  op_exists : Clock → Bytes → Op
  op_set : Clock → Bytes → Bytes → ℕ → Op
  op_del : Bytes → Op
  op_flush : Op

pub data Answer : Type 0 where
  answered : GetResult → Answer
  there : Bool → Answer
  written : SetResult → Answer
  removed : DelResult → Answer
  flushed : Answer

unfoldable pub run_op : Arena → Op → Arena × Answer
run_op a (op_get clock key) = let (b, r) = get clock a key in (b, answered r)
run_op a (op_exists clock key) = let (b, r) = exists clock a key in (b, there r)
run_op a (op_set clock key value ttl_secs) =
    let (b, r) = set clock a key value ttl_secs in (b, written r)
run_op a (op_del key) = let (b, r) = del a key in (b, removed r)
run_op a op_flush = (flush_all a, flushed)

unfoldable pub run : Arena → List Op → Arena × List Answer
run a [] = (a, [])
run a (op ∷ ops) = let (b, r) = run_op a op in let (c, rs) = run b ops in (c, r ∷ rs)

-- The map has as many keys as there are slots.
abbrev pub IsFull : AbstractMap → Type 0
IsFull m =
    (keys : ℕ → Bytes) × ((p : ℕ) → p < slot_count → m (keys p) ≢ none)
    × ((p q : ℕ) → p < slot_count → q < slot_count → keys p ≡ keys q → p ≡ q)

-- What an operation may answer on a map, and the map after it. An entry is judged at one reading of
-- the operation's clock.
pub data Step (m : AbstractMap) : Op → Answer → AbstractMap → Type 0 where
  on_get :
      {clock : Clock} {key : Bytes} (i : ℕ)
      → Step m
          (op_get clock key)
          (answered (read_entry (clock i) (m key)))
          (assign m key (keep_entry (clock i) (m key)))
  on_exists :
      {clock : Clock} {key : Bytes} (i : ℕ)
      → Step m
          (op_exists clock key)
          (there (is_found (read_entry (clock i) (m key))))
          (assign m key (keep_entry (clock i) (m key)))
  on_update :
      {clock : Clock} {key value : Bytes} {ttl_secs : ℕ} (i : ℕ) {e : Entry}
      → m key ≡ some e
      → is_dead (clock (suc i)) e ≡ false
      → Step m
          (op_set clock key value ttl_secs)
          (written updated)
          (assign m key (some (value, ttl_to_expiry (clock 0) ttl_secs)))
  on_insert :
      {clock : Clock} {key value : Bytes} {ttl_secs : ℕ}
      → m key ≡ none
      → Step m
          (op_set clock key value ttl_secs)
          (written inserted)
          (assign m key (some (value, ttl_to_expiry (clock 0) ttl_secs)))
  on_replace :
      {clock : Clock} {key value : Bytes} {ttl_secs : ℕ} (i : ℕ) {e : Entry}
      → m key ≡ some e
      → is_dead (clock (suc i)) e ≡ true
      → Step m
          (op_set clock key value ttl_secs)
          (written inserted)
          (assign m key (some (value, ttl_to_expiry (clock 0) ttl_secs)))
  on_full :
      {clock : Clock} {key value : Bytes} {ttl_secs : ℕ}
      → m key ≡ none
      → IsFull m
      → Step m (op_set clock key value ttl_secs) (written full) m
  on_del : {key : Bytes} → Step m (op_del key) (removed (del_entry (m key))) (assign m key none)
  on_flush : Step m op_flush flushed no_entries

pub data Steps : AbstractMap → List Op → List Answer → AbstractMap → Type 0 where
  done : {m : AbstractMap} → Steps m [] [] m
  next :
      {m m' m'' : AbstractMap} {op : Op} {ops : List Op} {r : Answer} {rs : List Answer}
      → Step m op r m'
      → Steps m' ops rs m''
      → Steps m (op ∷ ops) (r ∷ rs) m''
