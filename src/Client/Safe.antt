-- ===== src/Client/Safe.antt =====
-- Every method of src/client.rs keeps an arena valid, whatever its arguments.
use memlane.Arena.{Arena}
use memlane.Client.{
  Reply, Clocks, later, and_then, get, set, del, exists, flush, mget, mset_loop, mset, incr, decr,
}
use memlane.Hashmap.Flush.{flush_all-no_entries}
use memlane.Hashmap.Invariant.{IsValid}
use memlane.Hashmap.SafeRead.{both, Keeps, get-IsValid, exists-IsValid, del-IsValid}
use memlane.Hashmap.Crash.Valid.{set-IsValid}
use memlane.Hashmap.{Clock}
use memlane.Prelude.{ℕ, ◌≤◌, ◌≡◌, false, ltb, length, Bytes, List, [], ◌∷◌, ok, err, arith, ◌+◌}
use memlane.Slot.{max_key_len, max_val_len}

and_then-IsValid :
    {A B : Type 0} (run : Reply A) (f : A → Arena → Reply B)
    → Keeps run
    → ((x : A) (a : Arena) → IsValid a → Keeps (f x a))
    → Keeps (and_then run f)
and_then-IsValid (a, ok x) f v h = h x a v
and_then-IsValid (a, err e) f v h = v

short : (n limit : ℕ) → ltb limit n ≡ false → n ≤ limit
short n limit e = ground arith

pub client_get-IsValid :
    (clock : Clock) (a : Arena) (key : Bytes) → IsValid a → Keeps (get clock a key)
unfolding get
client_get-IsValid clock a key v =
    both Keeps (ltb max_key_len (length key)) (λ _. v) (λ _. get-IsValid clock a key v)

pub client_set-IsValid :
    (clock : Clock) (a : Arena) (key value : Bytes) (ttl_secs : ℕ)
    → IsValid a
    → Keeps (set clock a key value ttl_secs)
unfolding set
client_set-IsValid clock a key value ttl_secs v =
    both Keeps (ltb max_key_len (length key)) (λ _. v)
      λ fits.
        both Keeps (ltb max_val_len (length value)) (λ _. v)
          λ _. set-IsValid clock a key value ttl_secs (short _ _ fits) v

pub client_del-IsValid : (a : Arena) (key : Bytes) → IsValid a → Keeps (del a key)
unfolding del
client_del-IsValid a key v =
    both Keeps (ltb max_key_len (length key)) (λ _. v) (λ _. del-IsValid a key v)

pub client_exists-IsValid :
    (clock : Clock) (a : Arena) (key : Bytes) → IsValid a → Keeps (exists clock a key)
unfolding exists
client_exists-IsValid clock a key v =
    both Keeps (ltb max_key_len (length key)) (λ _. v) (λ _. exists-IsValid clock a key v)

pub flush-IsValid : (a : Arena) → IsValid a → Keeps (flush a)
unfolding flush
flush-IsValid a v = (flush_all-no_entries v).0

pub mget-IsValid :
    (keys : List Bytes) (clocks : Clocks) (a : Arena) → IsValid a → Keeps (mget clocks a keys)
unfolding mget
mget-IsValid [] clocks a v = v
mget-IsValid (key ∷ keys) clocks a v =
    and_then-IsValid (get (clocks 0) a key) _ (client_get-IsValid (clocks 0) a key v) λ x b w.
      and_then-IsValid (mget (later clocks) b keys) _ (mget-IsValid keys (later clocks) b w)
        λ xs c u. u

mset_loop-IsValid :
    (pairs : List (Bytes × Bytes)) (clocks : Clocks) (ttl_secs count : ℕ) (a : Arena)
    → IsValid a
    → Keeps (mset_loop clocks ttl_secs count a pairs)
unfolding mset_loop
mset_loop-IsValid [] clocks ttl_secs count a v = v
mset_loop-IsValid ((key, val) ∷ pairs) clocks ttl_secs count a v =
    and_then-IsValid (set (clocks 0) a key val ttl_secs) _
      (client_set-IsValid (clocks 0) a key val ttl_secs v)
      λ x b w. mset_loop-IsValid pairs (later clocks) ttl_secs (count + 1) b w

pub mset-IsValid :
    (clocks : Clocks) (a : Arena) (pairs : List (Bytes × Bytes)) (ttl_secs : ℕ)
    → IsValid a
    → Keeps (mset clocks a pairs ttl_secs)
unfolding mset
mset-IsValid clocks a pairs ttl_secs v = mset_loop-IsValid pairs clocks ttl_secs 0 a v

pub incr-IsValid :
    (clocks : Clocks) (a : Arena) (key : Bytes) → IsValid a → Keeps (incr clocks a key)
unfolding incr
incr-IsValid clocks a key v =
    and_then-IsValid (get (clocks 0) a key) _ (client_get-IsValid (clocks 0) a key v) λ x b w.
      and_then-IsValid (set (clocks 1) b key _ 0) _ (client_set-IsValid (clocks 1) b key _ 0 w)
        λ y c u. u

pub decr-IsValid :
    (clocks : Clocks) (a : Arena) (key : Bytes) → IsValid a → Keeps (decr clocks a key)
unfolding decr
decr-IsValid clocks a key v =
    and_then-IsValid (get (clocks 0) a key) _ (client_get-IsValid (clocks 0) a key v) λ x b w.
      and_then-IsValid (set (clocks 1) b key _ 0) _ (client_set-IsValid (clocks 1) b key _ 0 w)
        λ y c u. u
